-- ===== src/Transport/Port/Laws.antt =====
-- qedl-transport/src/port.rs: what follows from an action that returned, and what a transport is
-- relied on for.
use qedl_rs.Prelude.{
  ℕ, List, [], ◌∷◌, ◌≤◌, length, ◌≡◌, refl, ap, ◌++◌, Outcome, Settles, ok, err, panic, hang, Bool,
  true, false, Option, none, some, ◌⊎◌, inl, inr, match_option, if◌then◌else◌,
}
use qedl_rs.Prelude.Bytes.{Bytes}
use qedl_rs.Transport.Port.{Act, and_then, IoError, Transport}

-- A composition that returned a value: its first call did, and so did what followed.
pub and_then-eq-ok :
    {W E A B : Type 0} (run : Outcome E A × W) (next : A → Act W E B) {b : B} {w : W}
    → and_then run next ≡ (ok b, w)
    → (a : A) × (between : W) × (run ≡ (ok a, between)) × (next a between ≡ (ok b, w))
and_then-eq-ok (ok a, between) next returned = (a, between, refl, returned)
and_then-eq-ok (err e, between) next returned = absurd (cc (ap (λ r. r.0) returned))
and_then-eq-ok (panic, between) next returned = absurd (cc (ap (λ r. r.0) returned))
and_then-eq-ok (hang, between) next returned = absurd (cc (ap (λ r. r.0) returned))

-- What a finished action returned, and left.
pub ok_pair :
    {W E A : Type 0} {a b : A} {w v : W}
    → ◌≡◌ {A = Outcome E A × W} (ok a, w) (ok b, v)
    → (a ≡ b) × (w ≡ v)
ok_pair {W} {E} {A} {a} {b} same =
    let results : ◌≡◌ {A = Outcome E A} (ok a) (ok b) = ap {A = Outcome E A × W} (λ r. r.0) same in
    (cc results, ap {A = Outcome E A × W} (λ r. r.1) same)

pub ok_pair_state :
    {W E A : Type 0} (o : Outcome E A) {a : A} {w v : W}
    → ◌≡◌ {A = Outcome E A × W} (o, w) (ok a, v)
    → w ≡ v
ok_pair_state {W} {E} {A} o same = ap {A = Outcome E A × W} (λ r. r.1) same

pub err_not_ok :
    {W E A : Type 0} {e : E} {b : A} {w v : W} → ◌≡◌ {A = Outcome E A × W} (err e, w) (ok b, v) → ⊥
err_not_ok {W} {E} {A} same = cc (ap {A = Outcome E A × W} (λ r. r.0) same)

pub ok_not_err :
    {W E A : Type 0} {a : A} {e : E} {w v : W} → ◌≡◌ {A = Outcome E A × W} (ok a, w) (err e, v) → ⊥
ok_not_err {W} {E} {A} same = cc (ap {A = Outcome E A × W} (λ r. r.0) same)

pub panic_not_ok :
    {W E A : Type 0} {b : A} {w v : W} → ◌≡◌ {A = Outcome E A × W} (panic, w) (ok b, v) → ⊥
panic_not_ok {W} {E} {A} same = cc (ap {A = Outcome E A × W} (λ r. r.0) same)

pub hang_not_ok :
    {W E A : Type 0} {b : A} {w v : W} → ◌≡◌ {A = Outcome E A × W} (hang, w) (ok b, v) → ⊥
hang_not_ok {W} {E} {A} same = cc (ap {A = Outcome E A × W} (λ r. r.0) same)

pub Settles-and_then :
    {W E A B : Type 0} (run : Outcome E A × W) (next : A → Act W E B)
    → Settles run.0
    → ((a : A) (w : W) → run ≡ (ok a, w) → Settles (next a w).0)
    → Settles (and_then run next).0
Settles-and_then (ok a, w) next ends more = more a w refl
Settles-and_then (err e, w) next ends more = tt
Settles-and_then (panic, w) next ends more = ends
Settles-and_then (hang, w) next ends more = ends

pub Settles-if_run :
    {W E A : Type 0} (test : Bool) (x y : Act W E A) (w : W)
    → (test ≡ true → Settles (x w).0)
    → (test ≡ false → Settles (y w).0)
    → Settles ((if test then x else y) w).0
Settles-if_run true x y w h k = h refl
Settles-if_run false x y w h k = k refl

pub Settles-match_option_run :
    {W E A B : Type 0} (o : Option B) (x : Act W E A) (f : B → Act W E A) (w : W)
    → (o ≡ none → Settles (x w).0)
    → ((b : B) → o ≡ some b → Settles (f b w).0)
    → Settles (match_option o x f w).0
Settles-match_option_run none x f w h k = h refl
Settles-match_option_run (some b) x f w h k = k b refl

-- What comes after a call that returned.
pub and_then-ok :
    {W E A B : Type 0} (run : Outcome E A × W) (next : A → Act W E B) {a : A}
    → run.0 ≡ ok a
    → and_then run next ≡ next a run.1
and_then-ok (o, w) next {a} h = ap (λ z. and_then (z, w) next) h

-- The branch that ran.
pub if_run :
    {W R : Type 0} (test : Bool) (x y : W → R) {w : W} {r : R}
    → (if test then x else y) w ≡ r
    → ((test ≡ true) × (x w ≡ r)) ⊎ ((test ≡ false) × (y w ≡ r))
if_run true x y run = inl (refl, run)
if_run false x y run = inr (refl, run)

pub match_option_run :
    {A W R : Type 0} (o : Option A) (x : W → R) (f : A → W → R) {w : W} {r : R}
    → match_option o x f w ≡ r
    → ((o ≡ none) × (x w ≡ r)) ⊎ ((a : A) × (o ≡ some a) × (f a w ≡ r))
match_option_run none x f run = inl (refl, run)
match_option_run (some a) x f run = inr (a, refl, run)

-- How a transport reads: no more bytes than the buffer has room for.
abbrev pub IsTransport : {W : Type 0} → Transport W → Type 0
IsTransport {W} t =
    (n : ℕ) (w : W) (bytes : Bytes) (w' : W) → t.read n w ≡ (ok bytes, w') → length bytes ≤ n

-- A transport whose reads hand out, in order, the bytes that `pending` tells of its state.
pub record IsStream {W : Type 0} (t : Transport W) (pending : W → Bytes) : Type 0 where
  pub read_ok :
      (n : ℕ) (w : W) (bytes : Bytes) (w' : W)
      → t.read n w ≡ (ok bytes, w')
      → pending w ≡ bytes ++ pending w'
  pub read_err :
      (n : ℕ) (w : W) (e : IoError) (w' : W) → t.read n w ≡ (err e, w') → pending w ≡ pending w'
  pub set_timeout_keeps : (ms : ℕ) (w : W) → pending (t.set_timeout ms w) ≡ pending w

-- A transport that keeps the packets that were written, in order, and none whose write failed.
pub record IsLog {W : Type 0} (t : Transport W) (sent : W → List Bytes) : Type 0 where
  pub write_ok :
      (packet : Bytes) (w w' : W)
      → t.write packet w ≡ (ok tt, w')
      → sent w' ≡ sent w ++ (packet ∷ [])
  pub write_err :
      (packet : Bytes) (w : W) (e : IoError) (w' : W)
      → t.write packet w ≡ (err e, w')
      → sent w' ≡ sent w
  pub flush_keeps : (w : W) → sent (t.flush w).1 ≡ sent w
  pub read_keeps : (n : ℕ) (w : W) → sent (t.read n w).1 ≡ sent w
  pub set_timeout_keeps : (ms : ℕ) (w : W) → sent (t.set_timeout ms w) ≡ sent w
