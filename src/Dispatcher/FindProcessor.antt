-- ===== src/Dispatcher/FindProcessor.antt =====
-- mods/dispatcher/src/find_processor.ts and the errors of mods/dispatcher/src/errors.ts.
pub mod FirstMatch
use routr.Prelude.{
  String, Bool, true, false, List, [], ◌∷◌, Option, none, some, Error, Result, ok, err, type_error,
  status, not_found, ◌>>=◌, any, template, if◌then◌else◌,
}
use routr.Sip.{Method, MessageRequest, same_method}

-- A matching function that is left out cannot be called.
pub record ProcessorConfig : Type 0 where
  pub ref : String
  pub addr : String
  pub methods : List Method
  pub match_func : Option (MessageRequest → Bool)

abbrev pub has_method : ProcessorConfig → MessageRequest → Bool
has_method config req = any (λ m. same_method m req.method) config.methods

abbrev called : Option (MessageRequest → Bool) → MessageRequest → Result Bool
called none req = err type_error
called (some f) req = ok (f req)

unfoldable pub filter : MessageRequest → ProcessorConfig → Result Bool
filter req config = if has_method config req then called config.match_func req else ok false

abbrev pub not_matching_processor_found : String → Error
not_matching_processor_found ref =
    status not_found (template ("not matching processor found for request ref: " ∷ ref ∷ []))

unfoldable pub find_processor : List ProcessorConfig → MessageRequest → Result ProcessorConfig
find_processor [] req = err (not_matching_processor_found req.ref)
find_processor (config ∷ list) req =
    let rest = find_processor list req in
    filter req config >>= λ matches. if matches then ok config else rest
