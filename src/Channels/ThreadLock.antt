-- ===== src/Channels/ThreadLock.antt =====
-- src/external-channel/services/channel-thread-lock-service.ts: the calls of `withThreadLock` for one
-- thread, numbered as they come. A call has its tail in the map when it enters, works when the tail
-- before it is settled, and releases its own at the end; a tail that is released before it is made
-- (the call has timed out) is never settled. The texts of keys and the clock are not modelled.
pub mod Exclusion
use autobyteus_server_ts.Common.{
  ltb, leb, ◌==◌, if◌then◌else◌, ltb→lt, lt→ltb, leb→le, le→leb, ==_iff, Bool-cases, Option-cases,
  get_or, is_some, Result, ok, err, ◌>>=◌, or_throw, Result-cases, >>=-eq-ok, or_throw-eq-ok,
  length, get_elem?, filter, find, All, length-append, length-filter-le, All-append, All-map,
  filter-All, get_elem?_total, get_elem?-All, find-All, ℕ, zero, suc, ◌+◌, ◌-◌, ◌*◌, ◌/◌, ◌%◌, ◌^◌,
  ◌≤◌, ◌<◌, min, max, String, ◌≡◌, refl, sym, ap, ◌∙◌, subst, ◌≢◌, ◌↔◌, ◌⊎◌, inl, inr, Bool, true,
  false, not, ◌&&◌, ◌||◌, Option, none, some, List, [], ◌∷◌, ◌++◌, map, arith, str_eq, str_eq_iff,
  str_eq_refl,
}
use autobyteus_server_ts.Common.Text.{
  normalize, normalize_optional, IsNormal, normalize-IsNormal, IsNormal-ne-nil, join, trim,
}
use autobyteus_server_ts.Common.Dict.{
  Dict, get, has, set, delete, keys, values, get-set, get-set_self, get-set_ne, get-delete,
  get-delete_self, get-delete_ne, IsDistinct, set-IsDistinct, delete-IsDistinct, delete-absent,
  delete-set_self, length-set, length-delete-le, get-All, set-All, delete-All, contains, dict_laws,
}

pub data Phase : Type 0 where
  absent waiting running finished timed_out : Phase

-- The calls, the call whose tail each waits for, and the call whose tail is in the map.
pub record ThreadLock : Type 0 where
  pub next : ℕ
  pub phase : ℕ → Phase
  pub previous : ℕ → Option ℕ
  pub tail : Option ℕ

abbrev pub put {ℓ} : {A : Type ℓ} → (ℕ → A) → ℕ → A → ℕ → A
put f n a m = if n == m then a else f m

abbrev pub no_calls : ThreadLock
no_calls = record { next = 0; phase = λ n. absent; previous = λ n. none; tail = none }

abbrev pub is_finished : Phase → Bool
is_finished finished = true
is_finished p = false

-- The tail before a call is settled: there is none, or its call has finished.
abbrev pub is_settled : ThreadLock → Option ℕ → Bool
is_settled l none = true
is_settled l (some p) = is_finished (l.phase p)

-- `if (queueTails.get(key) === currentTail) queueTails.delete(key)`.
abbrev pub drop_tail : Option ℕ → ℕ → Option ℕ
drop_tail none n = none
drop_tail (some t) n = if t == n then none else some t

unfoldable pub enter : ThreadLock → ThreadLock
enter l = record {
  next = suc l.next;
  phase = put l.phase l.next waiting;
  previous = put l.previous l.next l.tail;
  tail = some l.next;
}

unfoldable pub acquire : ThreadLock → ℕ → ThreadLock
acquire l n = record l { phase = put l.phase n running }

unfoldable pub finish : ThreadLock → ℕ → ThreadLock
finish l n = record l { phase = put l.phase n finished; tail = drop_tail l.tail n }

unfoldable pub time_out : ThreadLock → ℕ → ThreadLock
time_out l n = record l { phase = put l.phase n timed_out; tail = drop_tail l.tail n }

-- What can happen next, and when; a call times out only while it waits.
pub data LockStep : ThreadLock → ThreadLock → Type 0 where
  entered : (l : ThreadLock) → LockStep l (enter l)
  acquired :
      (l : ThreadLock) (n : ℕ)
      → l.phase n ≡ waiting
      → is_settled l (l.previous n) ≡ true
      → LockStep l (acquire l n)
  done : (l : ThreadLock) (n : ℕ) → l.phase n ≡ running → LockStep l (finish l n)
