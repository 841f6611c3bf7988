-- ===== src/GenApi/Registers/Places.antt =====
-- Registers whose address is a sum of numbers, and whose length is a number.
use cameleon.Prelude.{ℕ, ◌+◌, ◌^◌, ◌<◌, List, [], ◌∷◌, map, some, none, arith, ◌≡◌, refl, ap, ◌∙◌}
use cameleon.Result.{ok}
use cameleon.GenApi.I64.{wrapping_add}
use cameleon.GenApi.Store.{CacheStore}
use cameleon.GenApi.Context.{Device, Machine, NodeStore, PortNode}
use cameleon.GenApi.Registers.{
  RegisterBase, imm, address, AddressKind, plus, kind_value, imm_value, address_from,
  register_address, register_length,
}
use cameleon.GenApi.Registers.Steps.{IsAt}

abbrev pub sum : List ℕ → ℕ
sum [] = 0
sum (x ∷ xs) = x + sum xs

abbrev pub fixed_kinds : List ℕ → List AddressKind
fixed_kinds xs = map (λ a. address (imm a)) xs

plus_lem : (a b : ℕ) → a + b < 2 ^ 63 → plus a b ≡ ok (a + b)
unfolding plus wrapping_add
plus_lem a b h = ground arith

module _ {D V C : Type 0} ⦃W : Device D⦄ ⦃K : CacheStore C⦄ ⦃N : NodeStore D V C⦄ where
  address_from-fixed_kinds :
      (xs : List ℕ) (a : ℕ) (s : Machine D V C)
      → a + sum xs < 2 ^ 63
      → address_from a (fixed_kinds xs) s ≡ (ok (a + sum xs), s)
  unfolding address_from kind_value imm_value
  address_from-fixed_kinds [] a s h = ap (λ n. (ok n, s)) {x = a} {y = a + 0} (omega arith)
  address_from-fixed_kinds (x ∷ xs) a s h =
      let next = address_from-fixed_kinds xs (a + x) s (omega arith) in
      rw (plus_lem a x (omega arith), next)
        (ap (λ n. (ok n, s)) {x = a + x + sum xs} {y = a + (x + sum xs)} (omega arith))

  -- A register with numbers for its length and the parts of its address is at the sum of those, if
  -- it does not overflow, behind a port that is no chunk.
  pub fixed_IsAt :
      (reg : RegisterBase) (xs : List ℕ) (len : ℕ) (port : PortNode)
      → reg.address_kinds ≡ fixed_kinds xs
      → reg.length ≡ imm len
      → sum xs < 2 ^ 63
      → len < 2 ^ 63
      → N.as_iport_kind reg.p_port ≡ some port
      → port.chunk_id ≡ none
      → IsAt W K N reg (sum xs) len port
  unfolding register_length register_address imm_value
  fixed_IsAt reg xs len port kinds length total small has_port no_chunk = record {
    has_length = λ s. rw length refl;
    has_address = λ s. rw kinds (
        address_from-fixed_kinds xs 0 s (omega arith)
        ∙ ap (λ n. (ok n, s)) {x = 0 + sum xs} {y = sum xs} (omega arith));
    has_port = has_port;
    no_chunk = no_chunk;
    small = small;
  }
