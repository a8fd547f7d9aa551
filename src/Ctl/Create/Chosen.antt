-- ===== src/Ctl/Create/Chosen.antt =====
-- What becomes of the answers: the privacy of an agent, and the URIs of a trunk.
use routr.Prelude.{
  ℕ, suc, String, ◌≡◌, refl, sym, ap, ◌∙◌, length, true, false, List, [], ◌∷◌, Option, none, some,
  Result, ok, All, ok-injective, to_upper, ◌==◌, string_eq, if◌then◌else◌,
}
use routr.Prelude.Maps.{lookup, insert, lookup-insert}
use routr.Validations.{Packages}
use routr.Ctl.Validators.{
  Answer, accepted, host_validator, port_validator, optional_username_validator, priority_validator,
  weight_validator,
}
use routr.Ctl.Prompts.{Value, text, undefined, Answers, Question, Terminal, text_of, is_set}
use routr.Ctl.Create.{with_privacy, with_max_contacts}
use routr.Ctl.Create.Loops.{uri_questions, ask_uris, uri_of, uri_with}
use routr.PgData.Mappers.{Privacy, private, nothing, Agent, agent_to_prisma}

-- The privacy that the data service reads of the request.
abbrev pub privacy_read : Option Value → Option Privacy
privacy_read (some (text s)) =
    if s == "NONE" then some nothing else if s == "ID" then some private else none
privacy_read _ = none

-- An agent for which the user chose Private is sent without a privacy, and the data service gives
-- its row the privacy NONE.
pub with_privacy-private :
    {J : Type 0} (answers sent : Answers) (a : Agent J)
    → text_of (lookup "privacy" answers) ≡ some "ID"
    → with_privacy answers ≡ ok sent
    → a.privacy ≡ privacy_read (lookup "privacy" (with_max_contacts sent))
    → (lookup "privacy" (with_max_contacts sent) ≡ some undefined)
      × ((agent_to_prisma a).privacy ≡ some nothing)
unfolding with_privacy with_max_contacts to_upper
with_privacy-private answers sent a chosen rewritten read =
    let same : insert "privacy" undefined answers ≡ sent =
      ok-injective (rw (chosen, with_privacy) at rewritten) in
    let kept : lookup "privacy" (with_max_contacts sent) ≡ some undefined =
      lookup-insert "maxContacts" "privacy" _ sent
      ∙ ap (lookup "privacy") (sym same)
      ∙ lookup-insert "privacy" "privacy" undefined answers in
    (kept, rw (read, kept) refl)

-- A validated answer: a text that the validator accepts.
abbrev pub IsAccepted : (String → Result Answer) → Option Value → Type 0
IsAccepted validate answer = (s : String) × (answer ≡ some (text s)) × (validate s ≡ ok accepted)

abbrev pub Validates : Question → Answers → Type 0
Validates q answers = elim q.validate [
  | none ↦ Unit
  | some validate ↦ IsAccepted validate (lookup q.name answers)
]

module _ (p : Packages) where
  -- The fields that were typed for a URI were accepted.
  abbrev pub IsTypedUri : Answers → Type 0
  IsTypedUri uri =
      IsAccepted (host_validator p) (lookup "host" uri)
      × IsAccepted (port_validator p) (lookup "port" uri)
      × IsAccepted optional_username_validator (lookup "user" uri)
      × IsAccepted (priority_validator p) (lookup "priority" uri)
      × IsAccepted (weight_validator p) (lookup "weight" uri)

  uri_with-IsTypedUri :
      (host port user priority weight : String) (transport : Option Value)
      → host_validator p host ≡ ok accepted
      → port_validator p port ≡ ok accepted
      → optional_username_validator user ≡ ok accepted
      → priority_validator p priority ≡ ok accepted
      → weight_validator p weight ≡ ok accepted
      → IsTypedUri (
          uri_with
            (some (text host))
            (some (text port))
            transport
            (some (text user))
            (some (text priority))
            (some (text weight)))
  unfolding uri_with lookup
  uri_with-IsTypedUri host port user priority weight none a b c d e =
      ((host, refl, a), (port, refl, b), (user, refl, c), (priority, refl, d), (weight, refl, e))
  uri_with-IsTypedUri host port user priority weight (some transport) a b c d e =
      ((host, refl, a), (port, refl, b), (user, refl, c), (priority, refl, d), (weight, refl, e))

  uri_of-eq :
      (group2 : Answers) (host port user priority weight : Option Value)
      → lookup "host" group2 ≡ host
      → lookup "port" group2 ≡ port
      → lookup "user" group2 ≡ user
      → lookup "priority" group2 ≡ priority
      → lookup "weight" group2 ≡ weight
      → uri_of group2 ≡ uri_with host port (lookup "transport" group2) user priority weight
  unfolding uri_of
  uri_of-eq group2 host port user priority weight h1 h2 h3 h4 h5 = rw (h1, h2, h3, h4, h5) refl

  uri_of-IsTypedUri :
      {S : Type 0} (t : Terminal S) (group2 : Answers)
      → All (λ q. Validates q group2) (uri_questions t p)
      → IsTypedUri (uri_of group2)
  uri_of-IsTypedUri t group2 h =
      let (host, host_is, host_ok) = h.0 in
      let (port, port_is, port_ok) = h.1.0 in
      let (user, user_is, user_ok) = h.1.1.1.0 in
      let (priority, priority_is, priority_ok) = h.1.1.1.1.0 in
      let (weight, weight_is, weight_ok) = h.1.1.1.1.1.0 in
      rw
        (uri_of-eq group2 (some (text host)) (some (text port)) (some (text user))
          (some (text priority)) (some (text weight)) host_is port_is user_is priority_is weight_is)
        (uri_with-IsTypedUri host port user priority weight (lookup "transport" group2) host_ok
          port_ok user_ok priority_ok weight_ok)

  module _ {S : Type 0} (t : Terminal S) where
    -- At the state `s`, the user answers `n` times, the last time without asking for another URI.
    pub data Finishes : ℕ → S → Type 0 where
      last :
          {s s' : S} (group2 : Answers)
          → t.prompt (uri_questions t p) s ≡ (ok group2, s')
          → is_set (lookup "addOutboundUri" group2) ≡ false
          → Finishes 1 s
      another :
          {n : ℕ} {s s' : S} (group2 : Answers)
          → t.prompt (uri_questions t p) s ≡ (ok group2, s')
          → is_set (lookup "addOutboundUri" group2) ≡ true
          → Finishes n s'
          → Finishes (suc n) s

    -- The loop asks for `n` URIs and gives them all, each with fields that were accepted.
    abbrev pub IsAsked : ℕ → S → Type 0
    IsAsked n s =
        (uris : List Answers) × (s' : S) × (ask_uris t p n true s ≡ (ok (some uris), s'))
        × (length uris ≡ n)
        × All IsTypedUri uris

    module _
        (prompt-Validates : (answers : Answers) (s s' : S)
          → t.prompt (uri_questions t p) s ≡ (ok answers, s')
          → All (λ q. Validates q answers) (uri_questions t p)) where
      -- If a prompt for a URI goes on until its validators accept the texts that are typed, and the
      -- user ends after some number of URIs, then with that fuel the loop of the command that creates
      -- a trunk ends, and gives that many URIs, each with a host, a port, a user, a priority and a
      -- weight that their validators accept.
      pub ask_uris-IsTypedUri : (n : ℕ) (s : S) → Finishes n s → IsAsked n s
      unfolding ask_uris
      ask_uris-IsTypedUri n s (last {s' = s'} group2 asked stop) = (
        uri_of group2 ∷ [],
        s',
        rw (asked, stop) refl,
        refl,
        (uri_of-IsTypedUri t group2 (prompt-Validates group2 s s' asked), tt),
      )
      ask_uris-IsTypedUri n s (another {n = k} {s' = s'} group2 asked more later) =
          let (uris, end, run, count, typed) = ask_uris-IsTypedUri k s' later in
          (
            uri_of group2 ∷ uris,
            end,
            rw (asked, more, run) refl,
            ap suc count,
            (uri_of-IsTypedUri t group2 (prompt-Validates group2 s s' asked), typed),
          )
