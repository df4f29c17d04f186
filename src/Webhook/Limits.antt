-- ===== src/Webhook/Limits.antt =====
-- checkRateLimit and cleanupRateLimits of webhook-router/main.go. A call of checkRateLimit is one step; for each key
-- cleanupRateLimits has a step that tests and a step that deletes, between which other steps can come. Times are milliseconds; the
-- code compares a time with the start of the window, here the window is added to the other side.
pub mod Window
use shipmates_oss.Prelude.{
  ℕ, ◌+◌, Bool, true, false, not, ◌&&◌, ◌||◌, List, [], ◌∷◌, ◌++◌, select, exists, length, leb, ltb,
  ◌==◌, if◌then◌else◌,
}
use shipmates_oss.Prelude.Bytes.{Bytes, bytes_eq}

abbrev pub rate_limit_window_ms : ℕ
rate_limit_window_ms = 60000

abbrev pub rate_limit_max_per_ip : ℕ
rate_limit_max_per_ip = 15

abbrev pub rate_limit_max_global : ℕ
rate_limit_max_global = 300

abbrev pub cleanup_interval_ms : ℕ
cleanup_interval_ms = 60000

pub record IpRateLimiter : Type 0 where
  pub ip : Bytes
  pub timestamps : List ℕ

pub record Limits : Type 0 where
  pub limiters : List IpRateLimiter
  pub last_cleanup : ℕ
  pub global_count : ℕ
  pub global_start : ℕ

-- After the start of the window that ends now.
abbrev pub is_recent : ℕ → ℕ → Bool
is_recent now ts = ltb now (ts + rate_limit_window_ms)

abbrev pub timestamps_of : Bytes → List IpRateLimiter → List ℕ
timestamps_of ip [] = []
timestamps_of ip (l ∷ ls) =
    let rest = timestamps_of ip ls in if bytes_eq l.ip ip then l.timestamps else rest

abbrev pub without : Bytes → List IpRateLimiter → List IpRateLimiter
without ip = select (λ (l : IpRateLimiter). not (bytes_eq l.ip ip))

abbrev pub store : Bytes → List ℕ → List IpRateLimiter → List IpRateLimiter
store ip ts ls = record { ip = ip; timestamps = ts } ∷ without ip ls

-- The window of all addresses starts again when it is over.
abbrev pub new_window : ℕ → Limits → Limits
new_window now l =
    if ltb (l.global_start + rate_limit_window_ms) now
    then record {
      limiters = l.limiters;
      last_cleanup = l.last_cleanup;
      global_count = 0;
      global_start = now;
    }
    else l

abbrev pub with_limiters : List IpRateLimiter → Limits → Limits
with_limiters ls l = record {
  limiters = ls;
  last_cleanup = l.last_cleanup;
  global_count = l.global_count;
  global_start = l.global_start;
}

abbrev pub counted : ℕ → List IpRateLimiter → Limits → Limits
counted now ls l = record {
  limiters = ls;
  last_cleanup = if ltb (l.last_cleanup + cleanup_interval_ms) now then now else l.last_cleanup;
  global_count = l.global_count + 1;
  global_start = l.global_start;
}

abbrev pub check_ip : Bytes → ℕ → Limits → Bool × Limits
check_ip ip now l =
    let recent = select (is_recent now) (timestamps_of ip l.limiters) in
    if leb rate_limit_max_per_ip (length recent)
    then (false, with_limiters (store ip recent l.limiters) l)
    else (true, counted now (store ip (recent ++ (now ∷ [])) l.limiters) l)

unfoldable pub check_rate_limit : Bytes → ℕ → Limits → Bool × Limits
check_rate_limit ip now l =
    let fresh = new_window now l in
    if leb rate_limit_max_global fresh.global_count then (false, fresh) else check_ip ip now fresh

-- The map with the limiters that calls of cleanupRateLimits have found over and have not deleted yet.
pub record Running : Type 0 where
  pub limits : Limits
  pub doomed : List Bytes

abbrev pub has_limiter : Bytes → List IpRateLimiter → Bool
has_limiter ip [] = false
has_limiter ip (l ∷ ls) = bytes_eq l.ip ip || has_limiter ip ls

-- allExpired, of a call that was started at a time
abbrev pub all_expired : ℕ → Bytes → List IpRateLimiter → Bool
all_expired started ip ls = not (exists (is_recent started) (timestamps_of ip ls))

-- What Range does with a key: it tests the limiter under its mutex, and in a step of its own deletes it.
unfoldable pub test_limiter : ℕ → Bytes → Running → Running
test_limiter started ip s =
    if has_limiter ip s.limits.limiters && all_expired started ip s.limits.limiters
    then record { limits = s.limits; doomed = ip ∷ s.doomed }
    else s

abbrev pub without_first : Bytes → List Bytes → List Bytes
without_first ip [] = []
without_first ip (d ∷ ds) = let rest = without_first ip ds in if bytes_eq ip d then ds else d ∷ rest

unfoldable pub delete_limiter : Bytes → Running → Running
delete_limiter ip s =
    if exists (bytes_eq ip) s.doomed
    then record {
      limits = with_limiters (without ip s.limits.limiters) s.limits;
      doomed = without_first ip s.doomed;
    }
    else s

pub data Event : Type 0 where
  request : Bytes → ℕ → Event
  tests : ℕ → Bytes → Event
  deletes : Bytes → Event

abbrev pub step : Event → Running → Running
step (request ip now) s = record {
  limits = (check_rate_limit ip now s.limits).1;
  doomed = s.doomed;
}
step (tests started ip) s = test_limiter started ip s
step (deletes ip) s = delete_limiter ip s

abbrev pub run : List Event → Running → Running
run [] s = s
run (e ∷ es) s = run es (step e s)

abbrev pub start : ℕ → Running
start now = record {
  limits = record { limiters = []; last_cleanup = 0; global_count = 0; global_start = now };
  doomed = [];
}
