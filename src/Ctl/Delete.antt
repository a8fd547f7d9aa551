-- ===== src/Ctl/Delete.antt =====
-- The commands that delete a resource: mods/ctl/src/delete.ts, and delete.ts of each folder of
-- mods/ctl/src/commands. They name the method they call.
use routr.Prelude.{
  String, ◌≡◌, refl, true, Option, some, error, err, type_error, truthy, get_or, ◌==◌, string_eq,
  if◌then◌else◌,
}
use routr.Prelude.Exec.{Exec, throw}
use routr.Ctl.Prompts.{
  Kind, acls, agents, credentials, domains, numbers, peers, trunks, Terminal, failing,
}

-- The method that deletes, in each class of mods/sdk/src.
abbrev pub sdk_method : Kind → String
sdk_method acls = "deleteAcl"
sdk_method agents = "deleteAgent"
sdk_method credentials = "deleteCredentials"
sdk_method domains = "deleteDomain"
sdk_method numbers = "deleteNumber"
sdk_method peers = "deletePeer"
sdk_method trunks = "deleteTrunk"

-- The name that each command gives.
abbrev pub method_called : Kind → String
method_called acls = "deleteACL"
method_called agents = "deleteAgent"
method_called credentials = "deleteCredentials"
method_called domains = "deleteDomain"
method_called numbers = "deleteNumber"
method_called peers = "deletePeer"
method_called trunks = "deleteTrunk"

module _ {S : Type 0} (t : Terminal S) (remove : Kind → String → Exec S (Unit {0})) where
  -- await API[funcName](args.ref)
  abbrev call_method : Kind → String → String → Exec S (Unit {0})
  call_method kind func_name ref =
      if func_name == sdk_method kind then remove kind ref else throw type_error

  unfoldable pub delete_resource : Kind → String → Option String → Exec S (Unit {0})
  unfolding failing
  delete_resource kind func_name ref =
      if truthy ref
      then failing t (call_method kind func_name (get_or ref ""))
      else throw (error "You must provide a resource ref before continuing")

  abbrev pub delete_command : Kind → Option String → Exec S (Unit {0})
  delete_command kind ref = delete_resource kind (method_called kind) ref

  -- The command for an ACL fails, whatever the remote API would do.
  delete_command-acls :
      (ref : String) (s : S)
      → truthy (some ref) ≡ true
      → delete_command acls (some ref) s ≡ (err (error t.type_error_text), s)
  unfolding delete_resource failing
  delete_command-acls ref s h = rw h refl
