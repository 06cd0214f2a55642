-- ===== src/Core/Net.antt =====
-- crates/ferredge-core/src/net.rs: `write_all_socket`, and crates/ferredge-core/src/serial.rs:
-- `write_all_serial_port`, which is the same over a port.
pub mod WriteAll
use text.Mathlib.Text.{find?}
use ferredge.Prelude.{
  is_some, ℕ, zero, suc, Bool, true, false, ◌||◌, String, codes, starts_with, str_append,
  to_decimal, leb, List, [], ◌∷◌, Option, none, some, Result, ok, err, length, drop, ◌==◌,
  if◌then◌else◌,
}

-- A byte stream, socket or serial port, which is both traits' methods: `S` is its state with the
-- world's, and an error is told by `closed`, `is_closed` and its `Debug` text.
pub record Stream (S : Type 0) : Type 1 where
  pub Error : Type 0
  pub closed : Error
  pub is_closed : Error → Bool
  pub debug : Error → String
  pub read : S → Result (List ℕ) Error × S
  pub write : S → List ℕ → Result ℕ Error × S
  pub flush : S → Result (Unit {0}) Error × S

module _ {S : Type 0} (stream : Stream S) where
  -- The bytes not written yet; without fuel there is no answer.
  unfoldable pub write_loop : ℕ → List ℕ → S → Option (Result (Unit {0}) stream.Error × S)
  write_loop fuel [] s = some (ok tt, s)
  write_loop zero (b ∷ bytes) s = none
  write_loop (suc fuel) (b ∷ bytes) s =
      let (outcome, s') = stream.write s (b ∷ bytes) in
      elim outcome [
        | err e ↦ some (err e, s')
        | ok count ↦
            let rest = write_loop fuel (drop count (b ∷ bytes)) s' in
            if count == 0 then some (err stream.closed, s') else rest
      ]

  -- A round that goes on writes a byte, so as many rounds as bytes are enough.
  unfoldable pub write_all : List ℕ → S → Option (Result (Unit {0}) stream.Error × S)
  unfolding write_loop
  write_all buf s = write_loop (length buf) buf s

-- `host.matches(':').count()`.
abbrev pub colons : List ℕ → ℕ
colons [] = 0
colons (c ∷ cs) = let rest = colons cs in if c == 58 then suc rest else rest

unfoldable pub bracket_ipv6_host : String → String
bracket_ipv6_host host =
    if starts_with host "[" || leb (colons (codes host)) 1
    then host
    else str_append (str_append "[" host) "]"

unfoldable pub format_host_port : String → ℕ → String
unfolding bracket_ipv6_host to_decimal
format_host_port host port = str_append (str_append (bracket_ipv6_host host) ":") (to_decimal port)

unfoldable pub normalize_host_port : String → ℕ → String
unfolding format_host_port
normalize_host_port authority default_port =
    if starts_with authority "["
    then if is_some (find? authority "]:")
      then authority
      else format_host_port authority default_port
    else if colons (codes authority) == 1
    then authority
    else format_host_port authority default_port
