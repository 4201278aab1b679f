-- ===== src/Workspace/FollowUp/Retention.antt =====
-- What `finish` of proofops/workspace/store.py keeps of the events.
use safehire_proofops_bnb.Prelude.{String, Bool, not, str_eq}
use safehire_proofops_bnb.Workspace.Store.{Event}

abbrev pub of_watch : String → Event → Bool
of_watch watch e = str_eq e.watch watch

abbrev pub of_others : String → Event → Bool
of_others watch e = not (str_eq e.watch watch)
