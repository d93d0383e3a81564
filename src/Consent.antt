-- ===== src/Consent.antt =====
-- src/isz_capture_consent.c: the table of time-limited grants, keyed by server, output and kind.
-- A pointer is a number, 0 for NULL. The clock is the argument `now`, in nanoseconds.
pub mod Laws
mod Search
mod Tests
use ishizue.Base.{
  ℕ, suc, ◌+◌, ◌*◌, ◌%◌, ◌^◌, ◌-◌, Bool, true, false, ◌&&◌, ◌||◌, not, Option, none, some, List, [],
  ◌∷◌, ltb, leb, ◌==◌, if◌then◌else◌, set, get_elem?, replicate,
}
use ishizue.Status.{Status, status_ok, invalid_arg, resource_limit}

-- `struct isz_consent_entry`; `kind` is the enumeration's value.
pub record Entry : Type 0 where
  pub srv : ℕ
  pub output : ℕ
  pub kind : ℕ
  pub expires_ns : ℕ
  pub used : Bool

-- ISZ_CONSENT_SLOTS and ISZ_CONSENT_TIMEOUT_NS.
abbrev pub slots : ℕ
slots = 32

abbrev pub timeout_ns : ℕ
timeout_ns = 60 * 1000 * 1000 * 1000

abbrev pub uint64_max : ℕ
uint64_max = 2 ^ 64 - 1

-- The last value of `enum isz_consent_kind`; the first is 0.
abbrev pub kind_notification : ℕ
kind_notification = 2

-- `g_consent` as the program starts.
abbrev pub no_grants : List Entry
no_grants = replicate slots (record { srv = 0; output = 0; kind = 0; expires_ns = 0; used = false })

-- What a grant is keyed by.
pub record Key : Type 0 where
  pub srv : ℕ
  pub output : ℕ
  pub kind : ℕ

unfoldable pub matches : Key → Entry → Bool
matches k e = e.srv == k.srv && (e.output == k.output && e.kind == k.kind)

abbrev is_none : Option ℕ → Bool
is_none none = true
is_none (some i) = false

abbrev or_slot : Option ℕ → Option ℕ → Option ℕ
or_slot none o = o
or_slot (some i) o = some i

-- The loop of `isz_consent_find`, from index `i` on, with its local variables.
pub scan : Bool → Key → ℕ → Option ℕ → Option ℕ → ℕ → List Entry → Option ℕ
scan find_free k i free_slot oldest oldest_expiry [] =
    if find_free then or_slot free_slot oldest else none
scan find_free k i free_slot oldest oldest_expiry (e ∷ es) = elim e.used [
  | false ↦
      scan find_free k (i + 1) (if find_free && is_none free_slot then some i else free_slot) oldest
        oldest_expiry es
  | true ↦ elim (matches k e) [
    | true ↦ some i
    | false ↦
        scan find_free k (i + 1) free_slot
          (if find_free && ltb e.expires_ns oldest_expiry then some i else oldest)
          (if find_free && ltb e.expires_ns oldest_expiry then e.expires_ns else oldest_expiry) es
  ]
]

-- `isz_consent_find`: the index of the slot.
pub find : Bool → Key → List Entry → Option ℕ
unfolding scan
find find_free k es = scan find_free k 0 none none uint64_max es

-- `isz_consent_grant`.
pub grant : List Entry → Key → ℕ → Status × List Entry
grant es k now =
    if k.srv == 0 || k.output == 0
    then (invalid_arg, es)
    else if ltb kind_notification k.kind
    then (invalid_arg, es)
    else elim (find true k es) [
      | none ↦ (resource_limit, es)
      | some i ↦ (
        status_ok,
        set es i (record {
          srv = k.srv;
          output = k.output;
          kind = k.kind;
          expires_ns = (now + timeout_ns) % 2 ^ 64;
          used = true;
        }),
      )
    ]

check_entry : List Entry → ℕ → ℕ → Option Entry → Bool × List Entry
check_entry es now i none = (false, es)
check_entry es now i (some e) =
    if not e.used
    then (false, es)
    else if leb e.expires_ns now
    then (false, set es i (record e { used = false }))
    else (true, es)

-- `isz_consent_check`; an expired entry is reclaimed.
pub check : List Entry → Key → ℕ → Bool × List Entry
unfolding check_entry
check es k now =
    if k.srv == 0 || k.output == 0
    then (false, es)
    else if ltb kind_notification k.kind
    then (false, es)
    else elim (find false k es) [
      | none ↦ (false, es)
      | some i ↦ check_entry es now i (get_elem? es i)
    ]

-- `isz_capture_grant` and `isz_capture_check_consent`, the wrappers for screen capture.
capture_grant : List Entry → ℕ → ℕ → ℕ → List Entry
capture_grant es srv output now = (grant es (record { srv = srv; output = output; kind = 0 }) now).1

pub capture_check_consent : List Entry → ℕ → ℕ → ℕ → Bool × List Entry
capture_check_consent es srv output now =
    check es (record { srv = srv; output = output; kind = 0 }) now
