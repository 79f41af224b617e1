-- ===== src/Transport/Port.antt =====
-- qedl-transport/src/port.rs: the trait `Transport` over the state `W` of an implementation, and
-- its default methods. An action returns its result with the state after it, errors included.
pub mod Laws
use qedl_rs.Prelude.{
  ℕ, zero, suc, ◌-◌, [], ◌++◌, ltb, ◌==◌, length, Outcome, ok, err, panic, hang, if◌then◌else◌,
}
use qedl_rs.Prelude.Bytes.{Bytes}

abbrev pub Act : Type 0 → Type 0 → Type 0 → Type 0
Act W E A = W → Outcome E A × W

-- `?` and `.await`: an error ends the caller.
abbrev pub and_then : {W E A B : Type 0} → Outcome E A × W → (A → Act W E B) → Outcome E B × W
and_then (ok a, w) f = f a w
and_then (err e, w) f = (err e, w)
and_then (panic, w) f = (panic, w)
and_then (hang, w) f = (hang, w)

infixl 5 ◌>>=◌ ◌>>◌
abbrev pub ◌>>=◌ : {W E A B : Type 0} → Act W E A → (A → Act W E B) → Act W E B
(m >>= f) w = and_then (m w) f

abbrev pub ◌>>◌ : {W E B : Type 0} → Act W E (Unit {0}) → Act W E B → Act W E B
m >> k = m >>= λ _. k

abbrev pub ret : {W E A : Type 0} → A → Act W E A
ret a w = (ok a, w)

abbrev pub fail : {W E A : Type 0} → E → Act W E A
fail e w = (err e, w)

-- The kinds of `std::io::Error` that the code names, and those of an implementation.
pub data IoError : Type 0 where
  unexpected_eof connection_reset : IoError
  other : ℕ → IoError

-- `read` into a buffer of as many bytes returns those it put there; `timeout` is in milliseconds.
pub record Transport (W : Type 0) : Type 0 where
  pub read : ℕ → Act W IoError Bytes
  pub write : Bytes → Act W IoError (Unit {0})
  pub flush : Act W IoError (Unit {0})
  pub set_timeout : ℕ → W → W

module _ {W : Type 0} (t : Transport W) where
  -- `while pos < buf.len()`, on fuel; `got` is the filled part of the buffer.
  unfoldable pub read_exact_loop : ℕ → ℕ → Bytes → Act W IoError Bytes
  read_exact_loop zero len got = if ltb (length got) len then (λ w. (hang, w)) else ret got
  read_exact_loop (suc fuel) len got =
      let round =
        (t.read (len - length got) >>= λ bytes.
        let rest = read_exact_loop fuel len (got ++ bytes) in
        if length bytes == 0 then fail unexpected_eof else rest) in
      if ltb (length got) len then round else ret got

  -- Each round reads a byte at least, so the length of the buffer is enough fuel.
  unfoldable pub read_exact : ℕ → Act W IoError Bytes
  read_exact len = read_exact_loop len len []
