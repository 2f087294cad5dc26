-- ===== src/Policies/Degradation/History.antt =====
-- A run's state is a function of its failures: what `record_route_failure` keeps in place agrees
-- with a specification over the whole history.
use autobyteus_server_ts.Common.{inl}
use autobyteus_server_ts.Common.{◌⊎◌}
use autobyteus_server_ts.Common.{
  ℕ, ◌+◌, ◌-◌, ◌≤◌, max, String, ◌≡◌, refl, sym, ap, ◌∙◌, Bool, true, false, ◌||◌, none, List, [],
  ◌∷◌, ◌++◌, arith, length, filter, leb, if◌then◌else◌, get_or,
}
use autobyteus_server_ts.Common.Dict.{get}
use autobyteus_server_ts.Policies.Degradation.{
  RunStatus, running, degraded, stopped, RunFailureState, DegradationPolicy, initial_state,
  trim_window, count_failure, advance, state_of, record_route_failure,
}
use autobyteus_server_ts.Policies.Degradation.Laws.{get-record_route_failure}

-- The failures of one run, newest first: whether the coordinator failed, and when.
abbrev pub FailureHistory : Type 0
FailureHistory = List (Bool × ℕ)

abbrev pub replay : DegradationPolicy → String → FailureHistory → DegradationPolicy
replay p run [] = p
replay p run ((c, t) ∷ h) = (record_route_failure (replay p run h) run c t).0

-- The coordinator's failures since the last failure of another member.
abbrev pub trailing : FailureHistory → ℕ
trailing [] = 0
trailing ((c, t) ∷ h) = if c then trailing h + 1 else 0

abbrev pub times : FailureHistory → List ℕ
times [] = []
times ((c, t) ∷ h) = times h ++ t ∷ []

abbrev pub in_window : ℕ → ℕ → List ℕ → List ℕ
in_window w now xs = filter (λ t. leb (now - w) t) xs

-- The failures within the window that ends with the newest of them.
abbrev pub recent : ℕ → FailureHistory → List ℕ
recent w [] = []
recent w ((c, t) ∷ h) = in_window w t (times h) ++ t ∷ []

abbrev next_status : RunStatus → Bool → RunStatus
next_status running over = degraded
next_status degraded over = if over then stopped else degraded
next_status stopped over = stopped

-- Degraded by the first failure, and stopped by a later one that reaches a threshold.
abbrev pub status_after : DegradationPolicy → FailureHistory → RunStatus
status_after p [] = running
status_after p (e ∷ h) = next_status (status_after p h) (
    leb p.coordinator_failure_threshold (trailing (e ∷ h))
    || leb p.global_failure_threshold (length (recent p.global_failure_window_ms (e ∷ h))))

abbrev pub state_after : DegradationPolicy → FailureHistory → RunFailureState
state_after p h = record {
  status = status_after p h;
  consecutive_coordinator_failures = trailing h;
  global_failure_timestamps = recent p.global_failure_window_ms h;
}

-- The clock does not run backwards.
abbrev pub IsClocked : FailureHistory → Type 0
IsClocked [] = Unit
IsClocked (e ∷ []) = Unit
IsClocked (e ∷ d ∷ h) = (d.1 ≤ e.1) × IsClocked (d ∷ h)

in_window-snoc :
    (w now t : ℕ) (xs : List ℕ)
    → in_window w now (xs ++ t ∷ []) ≡ in_window w now xs ++ in_window w now (t ∷ [])
in_window-snoc w now t [] = refl
in_window-snoc w now t (x ∷ xs) = ground (arith, in_window-snoc w now t xs)

in_window-in_window :
    (w now t : ℕ) (xs : List ℕ) → t ≤ now → in_window w now (in_window w t xs) ≡ in_window w now xs
in_window-in_window w now t [] h = refl
in_window-in_window w now t (x ∷ xs) h = ground (arith, in_window-in_window w now t xs h)

-- Trimming the trimmed window is trimming the whole history.
in_window-recent :
    (w now : ℕ) (e : Bool × ℕ) (h : FailureHistory)
    → e.1 ≤ now
    → in_window w now (recent w (e ∷ h)) ≡ in_window w now (times (e ∷ h))
in_window-recent w now (c, t) h le =
    in_window-snoc w now t (in_window w t (times h))
    ∙ ap (λ xs. xs ++ in_window w now (t ∷ [])) (in_window-in_window w now t (times h) le)
    ∙ sym (in_window-snoc w now t (times h))

trim_window-recent :
    (w : ℕ) (c : Bool) (t : ℕ) (h : FailureHistory)
    → IsClocked ((c, t) ∷ h)
    → trim_window w t (recent w h) ≡ in_window w t (times h)
unfolding trim_window
trim_window-recent w c t [] k = refl
trim_window-recent w c t (e ∷ h) k = in_window-recent w t e h k.0

count_failure-state_after :
    (p : DegradationPolicy) (c : Bool) (t : ℕ) (h : FailureHistory)
    → IsClocked ((c, t) ∷ h)
    → count_failure p.global_failure_window_ms c t (state_after p h)
      ≡ record (state_after p ((c, t) ∷ h)) { status = status_after p h }
unfolding count_failure
count_failure-state_after p c t h k = cc (trim_window-recent p.global_failure_window_ms c t h k)

advance-next_status :
    (p : DegradationPolicy) (st : RunStatus) (s : RunFailureState)
    → (advance p st (record s { status = st })).0 ≡ record s {
      status = next_status st (
          leb p.coordinator_failure_threshold s.consecutive_coordinator_failures
          || leb p.global_failure_threshold (length s.global_failure_timestamps));
    }
unfolding advance
advance-next_status p running s = refl
advance-next_status p degraded s = ground arith
advance-next_status p stopped s = refl

-- The thresholds and the window never change.
SameLimits : DegradationPolicy → DegradationPolicy → Type 0
SameLimits p q =
    (q.coordinator_failure_threshold ≡ p.coordinator_failure_threshold)
    × (q.global_failure_threshold ≡ p.global_failure_threshold)
    × (q.global_failure_window_ms ≡ p.global_failure_window_ms)

replay-SameLimits :
    (p : DegradationPolicy) (run : String) (h : FailureHistory) → SameLimits p (replay p run h)
unfolding SameLimits record_route_failure
replay-SameLimits p run [] = (refl, refl, refl)
replay-SameLimits p run ((c, t) ∷ h) = replay-SameLimits p run h

advance-limits :
    (p q : DegradationPolicy) (st : RunStatus) (s : RunFailureState)
    → SameLimits p q
    → (advance q st s).0 ≡ (advance p st s).0
unfolding advance SameLimits
advance-limits p q running s k = refl
advance-limits p q degraded s k = ground arith
advance-limits p q stopped s k = refl

IsClocked-tail : (e : Bool × ℕ) (h : FailureHistory) → IsClocked (e ∷ h) → IsClocked h
IsClocked-tail e [] k = tt
IsClocked-tail e (d ∷ h) k = k.1

advance-state_after :
    (p q : DegradationPolicy) (s : RunFailureState) (c : Bool) (t : ℕ) (h : FailureHistory)
    → SameLimits p q
    → s ≡ state_after p h
    → IsClocked ((c, t) ∷ h)
    → (advance q s.status (count_failure q.global_failure_window_ms c t s)).0
      ≡ state_after p ((c, t) ∷ h)
unfolding SameLimits
advance-state_after p q s c t h same e k =
    ap (λ x. (advance q x.status (count_failure q.global_failure_window_ms c t x)).0) e
    ∙ advance-limits p q (status_after p h) _ same
    ∙ ap (λ w. (advance p (status_after p h) (count_failure w c t (state_after p h))).0) same.2
    ∙ ap (λ x. (advance p (status_after p h) x).0) (count_failure-state_after p c t h k)
    ∙ advance-next_status p (status_after p h) (state_after p ((c, t) ∷ h))

-- The state kept for a run that starts with no failures is determined by its history: the status,
-- the coordinator's failures in a row and the failures in the window are those of the
-- specification, whatever the thresholds, if the clock does not run backwards.
pub replay-state_after :
    (p : DegradationPolicy) (run : String) (h : FailureHistory)
    → get p.state_by_run_id run ≡ none
    → IsClocked h
    → state_of (replay p run h) run ≡ state_after p h
replay-state_after p run [] fresh k = rw fresh refl
replay-state_after p run ((c, t) ∷ h) fresh k =
    ap (λ o. get_or o initial_state) (get-record_route_failure (replay p run h) run c t)
    ∙ advance-state_after p (replay p run h) (state_of (replay p run h) run) c t h
        (replay-SameLimits p run h) (replay-state_after p run h fresh (IsClocked-tail (c, t) h k)) k

abbrev pub all_coordinator : FailureHistory → Bool
all_coordinator [] = true
all_coordinator ((c, t) ∷ h) = if c then all_coordinator h else false

trailing-all_coordinator : (h : FailureHistory) → all_coordinator h ≡ true → trailing h ≡ length h
trailing-all_coordinator [] a = refl
trailing-all_coordinator ((c, t) ∷ h) a = ground (arith, trailing-all_coordinator h)

status_after-stays :
    (p : DegradationPolicy) (h : FailureHistory)
    → 1 ≤ length h
    → (status_after p h ≡ degraded) ⊎ (status_after p h ≡ stopped)
status_after-stays p [] l = absurd (omega arith)
status_after-stays p (e ∷ []) l = inl refl
status_after-stays p (e ∷ d ∷ h) l = ground (arith, status_after-stays p (d ∷ h))

status_after-coordinator :
    (p : DegradationPolicy) (h : FailureHistory)
    → all_coordinator h ≡ true
    → max 2 p.coordinator_failure_threshold ≤ length h
    → status_after p h ≡ stopped
status_after-coordinator p [] a l = absurd (omega arith)
status_after-coordinator p (e ∷ []) a l = absurd (omega arith)
status_after-coordinator p (e ∷ d ∷ h) a l =
    ground (arith, status_after-stays p (d ∷ h), trailing-all_coordinator (e ∷ d ∷ h))

-- A run whose coordinator alone fails is stopped once it has failed twice and as often as its
-- threshold says.
pub coordinator_failures-stopped :
    (p : DegradationPolicy) (run : String) (h : FailureHistory)
    → get p.state_by_run_id run ≡ none
    → IsClocked h
    → all_coordinator h ≡ true
    → max 2 p.coordinator_failure_threshold ≤ length h
    → (state_of (replay p run h) run).status ≡ stopped
coordinator_failures-stopped p run h fresh k a l =
    ap (λ s. s.status) (replay-state_after p run h fresh k) ∙ status_after-coordinator p h a l
