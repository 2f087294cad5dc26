-- ===== src/Channels/ThreadLock/Exclusion.antt =====
-- One call at a time works on a thread, as long as none times out.
use autobyteus_server_ts.Channels.ThreadLock.{
  done, acquired, entered, timed_out, is_finished, is_settled, absent, running, finished, waiting,
  LockStep, no_calls, Phase, ThreadLock, finish, acquire, enter,
}
use autobyteus_server_ts.Common.{
  Option-cases, ℕ, suc, ◌≤◌, ◌<◌, ◌≡◌, refl, inl, inr, Bool, true, false, none, some, arith,
}

pub data LockReach : ThreadLock → Type 0 where
  start : LockReach no_calls
  after : (l m : ThreadLock) → LockReach l → LockStep l m → LockReach m

abbrev has_begun : Phase → Bool
has_begun running = true
has_begun finished = true
has_begun p = false

-- Calls begin in the order in which they have come.
record IsOrdered (l : ThreadLock) : Type 0 where
  before : (n m : ℕ) → m < n → has_begun (l.phase n) ≡ true → l.phase m ≡ finished
  first : (n m : ℕ) → m < n → l.phase n ≡ waiting → l.previous n ≡ none → l.phase m ≡ finished
  chained : (n p : ℕ) → l.phase n ≡ waiting → l.previous n ≡ some p → n ≡ suc p
  free : (m : ℕ) → l.tail ≡ none → m < l.next → l.phase m ≡ finished
  held : (t : ℕ) → l.tail ≡ some t → l.next ≡ suc t
  fresh : (m : ℕ) → l.next ≤ m → l.phase m ≡ absent

no_calls-IsOrdered : IsOrdered no_calls
no_calls-IsOrdered = record {
  before = λ n m h b. cc;
  first = λ n m h w p. cc;
  chained = λ n p w q. cc;
  free = λ m t h. absurd (omega arith);
  held = λ t h. cc;
  fresh = λ m h. refl;
}

enter-IsOrdered : (l : ThreadLock) → IsOrdered l → IsOrdered (enter l)
unfolding enter
enter-IsOrdered l i = record {
  before = λ n m h b. ground (arith, i.before n m, i.fresh n);
  first = λ n m h w p. ground (arith, i.first n m, i.free m, i.fresh n);
  chained = λ n p w q. ground (arith, i.chained n p, i.held p);
  free = λ m t h. cc;
  held = λ t h. ground (arith);
  fresh = λ m h. ground (arith, i.fresh m);
}

is_finished-eq : (p : Phase) → is_finished p ≡ true → p ≡ finished
is_finished-eq absent h = cc
is_finished-eq waiting h = cc
is_finished-eq running h = cc
is_finished-eq finished h = refl
is_finished-eq timed_out h = cc

-- Before a call whose turn it is, all have finished.
is_settled-finished :
    (l : ThreadLock) (n m : ℕ)
    → l.phase n ≡ waiting
    → is_settled l (l.previous n) ≡ true
    → IsOrdered l
    → m < n
    → l.phase m ≡ finished
is_settled-finished l n m w s i h = elim (Option-cases (l.previous n)) [
  | inl p ↦ i.first n m h w p
  | inr (q, p) ↦
      let is_next = i.chained n q w p in
      let over : l.phase q ≡ finished = is_finished-eq (l.phase q) (rw p at s) in
      ground (arith, over, i.before q m)
]

acquire-IsOrdered :
    (l : ThreadLock) (n : ℕ)
    → l.phase n ≡ waiting
    → is_settled l (l.previous n) ≡ true
    → IsOrdered l
    → IsOrdered (acquire l n)
unfolding acquire
acquire-IsOrdered l n w s i = record {
  before =
      λ k m h b. ground (arith, i.before k m, i.before k n, is_settled-finished l n m w s i, w);
  first = λ k m h w' p. ground (arith, i.first k m, w);
  chained = λ k p w' q. ground (arith, i.chained k p);
  free = λ m t h. ground (arith, i.free m, i.free n, i.fresh n, w);
  held = λ t h. i.held t h;
  fresh = λ m h. ground (arith, i.fresh m, i.fresh n, w);
}

finish-IsOrdered :
    (l : ThreadLock) (n : ℕ) → l.phase n ≡ running → IsOrdered l → IsOrdered (finish l n)
unfolding finish
finish-IsOrdered l n r i = record {
  before = λ k m h b. ground (arith, i.before k m, i.before n m, r);
  first = λ k m h w p. ground (arith, i.first k m);
  chained = λ k p w q. ground (arith, i.chained k p);
  free = λ m t h. ground (arith, i.free m, i.before n m, i.held n, r);
  held = λ t h. ground (arith, i.held t);
  fresh = λ m h. ground (arith, i.fresh m, i.fresh n, r);
}

LockStep-IsOrdered : (l m : ThreadLock) → LockStep l m → IsOrdered l → IsOrdered m
LockStep-IsOrdered l m (entered k) i = enter-IsOrdered k i
LockStep-IsOrdered l m (acquired k n w s) i = acquire-IsOrdered k n w s i
LockStep-IsOrdered l m (done k n r) i = finish-IsOrdered k n r i

LockReach-IsOrdered : (l : ThreadLock) → LockReach l → IsOrdered l
LockReach-IsOrdered l start = no_calls-IsOrdered
LockReach-IsOrdered l (after k m r s) = LockStep-IsOrdered k m s (LockReach-IsOrdered k r)

-- As long as no call times out, no two calls work on a thread at the same time.
pub LockReach-exclusive :
    (l : ThreadLock) (m n : ℕ) → LockReach l → l.phase m ≡ running → l.phase n ≡ running → m ≡ n
LockReach-exclusive l m n h a b =
    let i = LockReach-IsOrdered l h in ground (arith, i.before m n, i.before n m, a, b)
