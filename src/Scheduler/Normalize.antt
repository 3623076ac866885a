-- ===== src/Scheduler/Normalize.antt =====
-- normalizeJob of internal/scheduler/store.go. The JSON package and the time zone database are
-- parameters: whether a text is a JSON object, its compact form, and the known zones.
pub mod Bounds
use Prim.Native.String
use Prim.Native.String.{len}
use mosaid.Base.{
  ◌≡◌, refl, ◌⊎◌, inl, inr, ℕ, zero, ◌*◌, ◌≡◌, String, Bool, true, false, ◌&&◌, ◌||◌, not, Option,
  none, some, List, [], ◌∷◌, str_eq, ltb, leb, ◌==◌, length, codes, if◌then◌else◌,
}
use mosaid.Int.{ℤ, pos, negsuc, ltb_ℤ, leb_ℤ}
use mosaid.Policy.{Risk, safe, low, medium, high, critical}
use mosaid.Scheduler.Timestamps.{second, minute, day}
use mosaid.Scheduler.Types.{
  Kind, one_time, recurring, Class, reminder, read_only, write, publish, MissedPolicy, skip,
  run_once, Job,
}

pub data Invalid : Type 0 where
  bad_identifier bad_input malformed_input bad_timezone no_next_run one_time_interval : Invalid
  bad_interval bad_kind bad_class bad_risk bad_missed bad_attempts bad_backoff : Invalid
  bad_timeout long_creation_key no_approval_ref : Invalid

pub data Checked {ℓ} (A : Type ℓ) : Type ℓ where
  accepted : A → Checked A
  rejected : Invalid → Checked A

pub Checked-cases {ℓ} :
    {A : Type ℓ} (r : Checked A) → ((a : A) × (r ≡ accepted a)) ⊎ ((e : Invalid) × (r ≡ rejected e))
Checked-cases (accepted a) = inl (a, refl)
Checked-cases (rejected e) = inr (e, refl)

-- A step that may return early with its error, and the steps after it.
infixl 5 ◌>>=◌ ◌>>◌
abbrev pub ◌>>=◌ {ℓ κ} :
    {Before : Type ℓ} {After : Type κ} → Checked Before → (Before → Checked After) → Checked After
◌>>=◌ step next = elim step [ rejected reason ↦ rejected reason | accepted value ↦ next value ]

abbrev pub ◌>>◌ {ℓ} : {After : Type ℓ} → Checked (Unit {0}) → Checked After → Checked After
◌>>◌ step next = elim step [ rejected reason ↦ rejected reason | accepted _ ↦ next ]

-- `if !test { return err }`
abbrev pub require : Bool → Invalid → Checked (Unit {0})
require test reason = if test then accepted tt else rejected reason

alphanumeric : ℕ → Bool
alphanumeric c =
    (leb b'A' c && leb c b'Z') || ((leb b'a' c && leb c b'z') || (leb b'0' c && leb c b'9'))

all_in_name : List ℕ → Bool
unfolding alphanumeric
all_in_name [] = true
all_in_name (c ∷ cs) = (alphanumeric c || (c == b'_' || (c == b'.' || c == b'-'))) && all_in_name cs

-- ^[A-Za-z0-9][A-Za-z0-9_.-]{0,127}$
identifier : List ℕ → Bool
unfolding alphanumeric all_in_name
identifier [] = false
identifier (c ∷ cs) = alphanumeric c && (leb (length cs) 127 && all_in_name cs)

unfoldable pub normal_kind : Kind → ℤ → Checked Kind
normal_kind one_time every =
    if not (leb_ℤ every (pos 0) && leb_ℤ (pos 0) every)
    then rejected one_time_interval
    else accepted one_time
normal_kind recurring every =
    if leb_ℤ every (pos 0) || ltb_ℤ (pos (366 * day)) every
    then rejected bad_interval
    else accepted recurring
normal_kind (Kind.other s) every =
    if not (str_eq s "")
    then rejected bad_kind
    else if not (leb_ℤ every (pos 0) && leb_ℤ (pos 0) every)
    then rejected one_time_interval
    else accepted one_time

unfoldable pub normal_class : Class → Checked Class
normal_class (Class.other s) = if str_eq s "" then accepted read_only else rejected bad_class
normal_class reminder = accepted reminder
normal_class read_only = accepted read_only
normal_class write = accepted write
normal_class publish = accepted publish

-- The default risk of a class.
abbrev pub class_risk : Class → Risk
class_risk reminder = safe
class_risk read_only = safe
class_risk write = medium
class_risk publish = high
class_risk (Class.other s) = Risk.other ""

abbrev pub known_risk : Risk → Checked Risk
known_risk (Risk.other s) = rejected bad_risk
known_risk r = accepted r

unfoldable pub normal_risk : Class → Risk → Checked Risk
normal_risk c (Risk.other s) = if str_eq s "" then known_risk (class_risk c) else rejected bad_risk
normal_risk c r = known_risk r

unfoldable pub normal_missed : MissedPolicy → Checked MissedPolicy
normal_missed skip = accepted skip
normal_missed run_once = accepted run_once
normal_missed (MissedPolicy.other s) =
    if str_eq s "" then accepted run_once else rejected bad_missed

abbrev pub is_zero : ℤ → Bool
is_zero (pos n) = n == 0
is_zero (negsuc n) = false

-- Zero takes the default; what is then out of bounds is an error.
abbrev pub bounded : ℤ → ℤ → ℤ → ℤ → Invalid → Checked ℤ
bounded default least most n e =
    let m = if is_zero n then default else n in
    if ltb_ℤ m least || ltb_ℤ most m then rejected e else accepted m

unfoldable pub normal_attempts : ℤ → Checked ℤ
normal_attempts n = bounded (pos 3) (pos 1) (pos 20) n bad_attempts

unfoldable pub normal_backoff : ℤ → Checked ℤ
normal_backoff n = bounded (pos second) (pos 0) (pos day) n bad_backoff

unfoldable pub normal_timeout : ℤ → Checked ℤ
normal_timeout n = bounded (pos minute) (pos 1) (pos day) n bad_timeout

-- Of bytes, as `len` counts them.
unfoldable pub normal_key : String → String → Checked String
normal_key key id =
    let k = if str_eq key "" then String.◌++◌ "create:" id else key in
    if ltb 256 (len k) then rejected long_creation_key else accepted k

abbrev pub is_publish : Class → Bool
is_publish publish = true
is_publish _ = false

module _ (valid_object : List ℕ → Bool) (compact : List ℕ → Option (List ℕ))
    (known_zone : String → Bool) where
  unfoldable pub normal_input : List ℕ → Checked (List ℕ)
  normal_input input =
      let text : List ℕ = elim input [ [] ↦ b'{' ∷ b'}' ∷ [] | c ∷ cs ↦ c ∷ cs ] in
      if not (valid_object text)
      then rejected bad_input
      else elim (compact text) [ none ↦ rejected malformed_input | some t ↦ accepted t ]

  unfoldable pub normal_zone : String → Checked String
  normal_zone zone =
      let z = if str_eq zone "" then "UTC" else zone in
      if known_zone z then accepted z else rejected bad_timezone

  unfoldable pub normalize : Job → ℕ → Checked Job
  unfolding identifier
  normalize job now = do
    require (identifier (codes job.id) && identifier (codes job.skill_id)) bad_identifier
    input ← normal_input job.input
    timezone ← normal_zone job.timezone
    require (not (job.next_run == 0)) no_next_run
    kind ← normal_kind job.kind job.every
    class ← normal_class job.class
    risk ← normal_risk class job.risk
    missed ← normal_missed job.missed
    max_attempts ← normal_attempts job.max_attempts
    retry_backoff ← normal_backoff job.retry_backoff
    timeout ← normal_timeout job.timeout
    creation_key ← normal_key job.creation_key job.id
    require (not (is_publish class && str_eq job.approval_ref "")) no_approval_ref
    accepted (record job {
      input = input;
      timezone = timezone;
      kind = kind;
      class = class;
      risk = risk;
      missed = missed;
      max_attempts = max_attempts;
      retry_backoff = retry_backoff;
      timeout = timeout;
      creation_key = creation_key;
      created_at = if job.created_at == 0 then now else job.created_at;
      updated_at = now;
    })
