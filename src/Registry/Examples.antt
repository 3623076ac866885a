-- ===== src/Registry/Examples.antt =====
-- A call that needs no approval.
use mosaid.Base.{
  ℕ, ◌+◌, ◌≡◌, refl, String, Bool, true, false, ◌⊎◌, none, some, List, [], ◌∷◌, first_where, ltb,
}
use mosaid.Int.{pos}
use mosaid.Policy.{Tool, safe, read, idempotent, evaluate}
use mosaid.Registry.{Call, Services, runs, is_named, execute, decide, charge}
use mosaid.Registry.Approved.{IsApproved, execute-runs}

abbrev over : ℕ → ℕ → Bool
over a b = ltb b a

abbrev fine : ℕ → Bool
fine a = true

abbrev encode : List ℕ → String
encode drawn = "token"

abbrev hash : String → String
hash s = s

abbrev reader : Tool
reader = record {
  name = "workspace.read";
  version = "1";
  input_schema = [];
  risk = safe;
  modes = read ∷ [];
  approval = false;
  timeout = pos 5;
  output_limit = pos 1024;
  path_scope = [];
  network_scope = [];
  idempotency = idempotent;
}

abbrev services : Services ℕ
services = record { tools = reader ∷ []; approvals = none; budget = none }

abbrev call : Call
call = record {
  name = "workspace.read";
  arguments = [];
  mode = read;
  user_id = pos 7;
  resource = "notes";
  approval_token = "";
}

reads : (execute 0 ◌+◌ over fine fine encode hash encode encode services 5 [] call).1 ≡ runs none
unfolding execute decide charge evaluate
reads = refl

execute-runs_example :
    (t : Tool) × (first_where (is_named "workspace.read") (reader ∷ []) ≡ some t)
    × (((evaluate t read).allowed ≡ true) ⊎ IsApproved hash encode services 5 call none)
execute-runs_example =
    execute-runs 0 ◌+◌ over fine fine encode hash encode encode services 5 [] call none reads
