-- ===== src/Tests/Conflict.antt =====
-- Two updates of a state at version 4.

use mathlib.Core.List.Perm
use ma2a.Base.{bytes_eq, ◌≡◌, refl, codes, true, false, [], ◌∷◌, arith, ◌↔◌}
use ma2a.Base.Int.{pos}
use ma2a.Python.{utf8, utf8_char, text_lt}
use ma2a.Python.Conflict.{
  DeltaMeta, ordering_key, key_lt, resolve, process, accept_incoming, keep_local, reject_stale,
}
use ma2a.Python.Conflict.Convergence.{IsDescendant, IsText}
use ma2a.Python.Conflict.Divergence.{process-swap_iff}

abbrev state : DeltaMeta
state = record {
  base_version = pos 3;
  new_version = pos 4;
  logical_clock = pos 10;
  organization_id = codes "org-a";
  sender_id = codes "node-1";
  message_id = codes "m-0";
  scope_allowed = true;
  replay = false;
}

abbrev ours : DeltaMeta
ours = record state { base_version = pos 4; new_version = pos 5; message_id = codes "m-1" }

abbrev theirs : DeltaMeta
theirs = record ours { sender_id = codes "node-2"; message_id = codes "m-2" }

abbrev skipping : DeltaMeta
skipping = record theirs { new_version = pos 6 }

ours-IsDescendant : IsDescendant (pos 4) (pos 5) ours
ours-IsDescendant = record { from = refl; to = refl; later = refl; fresh = refl; allowed = refl }

skipping-IsDescendant : IsDescendant (pos 4) (pos 6) skipping
skipping-IsDescendant = record {
  from = refl;
  to = refl;
  later = refl;
  fresh = refl;
  allowed = refl;
}

ours-IsText : IsText ours
ours-IsText = record { organization = omega arith; sender = omega arith; message = omega arith }

skipping-IsText : IsText skipping
skipping-IsText = record { organization = omega arith; sender = omega arith; message = omega arith }

resolve-theirs : resolve ours theirs ≡ accept_incoming
unfolding resolve key_lt ordering_key utf8 utf8_char text_lt bytes_eq
resolve-theirs = refl

resolve-ours : resolve theirs ours ≡ keep_local
unfolding resolve key_lt ordering_key utf8 utf8_char text_lt bytes_eq
resolve-ours = refl

resolve-skipping : resolve ours skipping ≡ reject_stale
unfolding resolve key_lt ordering_key
resolve-skipping = refl

process-swap_iff_example :
    (process state (ours ∷ skipping ∷ []) ≡ process state (skipping ∷ ours ∷ [])) ↔ (pos 5 ≡ pos 6)
process-swap_iff_example =
    process-swap_iff (pos 4) (pos 5) (pos 6) state ours skipping refl ours-IsDescendant
      skipping-IsDescendant ours-IsText skipping-IsText
