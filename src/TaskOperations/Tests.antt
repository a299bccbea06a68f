-- ===== src/TaskOperations/Tests.antt =====
-- Runs of `TaskOperationStore` (gtasks/task_operations.py).
use gtasks.Prelude.{nat_eq, ◌≡◌, refl, String, true, false, some, [], ◌∷◌, if◌then◌else◌}
use gtasks.Prelude.Exec.{ok}
use gtasks.EventQueue.Time.{aware}
use gtasks.EventQueue.Json.{Fields, str, field, end}
use gtasks.TaskOperations.{
  OperationLibrary, TaskOperation, TaskOperationStore, has_newline, reserve, reserve_row,
  reserve_checked,
}
use gtasks.TaskOperations.Reserved.{reserving, marking, after, reserved_as, reserve_again}

-- a digest that tells the two payloads apart
abbrev digest_of : Fields → String
digest_of (field name value rest) = name
digest_of end = "none"

abbrev library : OperationLibrary
library = record {
  strip = λ s. s;
  digest_of = λ fs. some (digest_of fs);
  uuid = λ n. if nat_eq n 0 then "u0" else "u1";
}

abbrev empty : TaskOperationStore
empty = record { rows = []; drawn = 0 }

abbrev operation : TaskOperation
operation = record { identity = "u0"; created_at = 5; is_new = true; verified = false }

abbrev payload : Fields
payload = field "title" (str "Call") end

reserve_again_example :
    reserved_as
      (reserve library "k" payload (aware 9) (
        after library
          (reserving "j" end (aware 6) ∷ marking operation ∷ [])
          (reserve library "k" payload (aware 5) empty).1)).0
    ≡ ok ("u0", false)
unfolding has_newline reserve reserve_checked reserve_row
reserve_again_example =
    reserve_again library "k" "title" "title" payload payload (aware 5) 9
      (reserving "j" end (aware 6) ∷ marking operation ∷ []) empty operation refl refl refl
