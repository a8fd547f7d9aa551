-- ===== src/Dispatcher/RunMiddlewares/Stops.antt =====
-- A chain of middlewares, cut in two.
use routr.Prelude.{
  ◌≡◌, refl, Bool, false, List, [], ◌∷◌, ◌++◌, Result, ok, err, ◌>>=◌, Bool-cases, inl, inr,
  if◌then◌else◌,
}
use routr.Prelude.Maps.{Map}
use routr.Sip.{MessageRequest}
use routr.Processor.Helper.{is_type_response}
use routr.Dispatcher.Types.{Connection, MiddlewareConfig}
use routr.Dispatcher.RunMiddlewares.{applies, run_chain, run_one}

module _ (connections : Map Connection) (run_post : Bool) where
  -- What is left to do after the first part of a chain.
  abbrev pub go_on : List MiddlewareConfig → MessageRequest → Result MessageRequest
  go_on later out =
      if is_type_response out then ok out else run_chain connections run_post later out

  after_one :
      (earlier later : List MiddlewareConfig) (out : MessageRequest)
      → (is_type_response out ≡ false
          → run_chain connections run_post (earlier ++ later) out
            ≡ (run_chain connections run_post earlier out >>= go_on later))
      → go_on (earlier ++ later) out ≡ (go_on earlier out >>= go_on later)
  after_one earlier later out rest = elim (Bool-cases (is_type_response out)) [
    | inl stopped ↦ rw stopped (rw stopped refl)
    | inr running ↦ rw running (rest running)
  ]

  after :
      (earlier later : List MiddlewareConfig)
      → ((out : MessageRequest)
          → is_type_response out ≡ false
          → run_chain connections run_post (earlier ++ later) out
            ≡ (run_chain connections run_post earlier out >>= go_on later))
      → (one : Result MessageRequest)
      → (one >>= go_on (earlier ++ later)) ≡ ((one >>= go_on earlier) >>= go_on later)
  after earlier later rest (ok out) = after_one earlier later out (rest out)
  after earlier later rest (err reason) = refl

  -- A chain on a request is its first part and then, unless that made a response of the request,
  -- its second part: a response stops the chain, and so does an error.
  pub run_chain-append :
      (earlier later : List MiddlewareConfig) (req : MessageRequest)
      → is_type_response req ≡ false
      → run_chain connections run_post (earlier ++ later) req
        ≡ (run_chain connections run_post earlier req >>= go_on later)
  unfolding run_chain
  run_chain-append [] later req h = rw h
  run_chain-append (midd ∷ earlier) later req h = elim (Bool-cases (applies run_post midd)) [
    | inl same ↦
        rw same
          (after earlier later (run_chain-append earlier later) (run_one connections midd req))
    | inr other ↦ rw other (run_chain-append earlier later req h)
  ]
