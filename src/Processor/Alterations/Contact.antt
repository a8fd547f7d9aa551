-- ===== src/Processor/Alterations/Contact.antt =====
-- The alterations on the Contact header, and the normalisation of telephone numbers.
use routr.Prelude.{
  ℤ, String, Bool, true, false, [], ◌∷◌, Option, none, some, Result, ok, err, type_error, ◌>>=◌,
  ◌==◌, int_eq, option_eq, head?, or_else, if◌then◌else◌, to_upper, includes, drop_plus, template,
  shown,
}
use routr.Prelude.Int.{negsuc}
use routr.Sip.{MessageRequest, Via, Contact, From, To, SipUri}

abbrev pub with_contact : MessageRequest → Option Contact → MessageRequest
with_contact req c = record req { message = record req.message { contact = c } }

abbrev pub with_contact_uri : Contact → SipUri → Contact
with_contact_uri c uri = record c { address = record c.address { uri = uri } }

-- `via.rPort !== -1 ? via.rPort : via.port`
abbrev pub source_port : Via → Option ℤ
source_port via = if via.r_port == some (negsuc 0) then via.port else via.r_port

abbrev fixed_contact : Contact → Option Via → Result Contact
fixed_contact c none = err type_error
fixed_contact c (some via) = ok (
    with_contact_uri c (record c.address.uri {
      host = or_else via.received via.host;
      port = source_port via;
      transport_param = some (to_upper via.transport);
    }))

unfoldable pub fix_invalid_contact : MessageRequest → Result MessageRequest
unfolding includes to_upper
fix_invalid_contact req = elim req.message.contact [
  | none ↦ ok req
  | some c ↦
      if includes c.address.uri.host ".invalid"
      then (do fixed ← fixed_contact c (head? req.message.via); ok (with_contact req (some fixed)))
      else ok req
]

unfoldable pub overwrite_contact_with_sender_info : MessageRequest → MessageRequest
overwrite_contact_with_sender_info req = elim req.message.contact [
  | none ↦ req
  | some c ↦ with_contact req (
      some (
        with_contact_uri c (record c.address.uri {
          host = req.sender.host;
          port = some req.sender.port;
          transport_param = some req.sender.transport;
        })))
]

-- `user?.replace("+", "")` in a template that puts a "+" before it.
unfoldable pub dialled : Option String → String
unfolding drop_plus
dialled user = template ("+" ∷ shown (elim user [ none ↦ none | some u ↦ some (drop_plus u) ]) ∷ [])

abbrev normalized_user : SipUri → Option String → SipUri
normalized_user uri none = uri
normalized_user uri (some n) = record uri { user = some n }

-- The package `phone` is a parameter: the number, if it is valid, of a text and the flag
-- `validateMobilePrefix`.
module _ (phone : String → Bool → Option String) where
  abbrev from_normalized : From → From
  from_normalized from = record from {
    address = record from.address {
      uri = normalized_user from.address.uri (phone (dialled from.address.uri.user) true);
    };
  }

  abbrev to_normalized : Bool → To → To
  to_normalized validate to = record to {
    address = record to.address {
      uri = normalized_user to.address.uri (phone (dialled to.address.uri.user) validate);
    };
  }

  unfoldable pub enforce_e164 : Bool → Bool → MessageRequest → Result MessageRequest
  unfolding dialled
  enforce_e164 false validate req = ok req
  enforce_e164 true validate req = elim req.message.request_uri [
    | none ↦ err type_error
    | some uri ↦ ok (record req {
      message = record req.message {
        from = from_normalized req.message.from;
        to = to_normalized validate req.message.to;
        request_uri = some (normalized_user uri (phone (dialled uri.user) validate));
      };
    })
  ]
