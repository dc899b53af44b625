-- ===== src/Word.antt =====
-- The 256-bit unsigned integer of hopr_types (`U256`), whose code is elsewhere: what
-- graph/function.rs calls of it, as an interface, with its documented behaviour as laws.
use hopr_api.Prelude.{
  ℕ, ◌*◌, ◌%◌, ◌^◌, ◌<◌, ◌≡◌, refl, Bool, Option, none, some, arith, ltb, leb, ◌==◌, if◌then◌else◌,
}

pub record Word {ℓ} (U : Type ℓ) : Type ℓ where
  pub from : ℕ → U  -- From<u64>
  pub one : U
  pub is_zero : U → Bool
  pub le : U → U → Bool
  pub checked_mul : U → U → Option U

abbrev pub u64_mod : ℕ
u64_mod = 2 ^ 64

abbrev pub u256_mod : ℕ
u256_mod = 2 ^ 256

-- The number that a product stands for, if there is one.
abbrev pub value_of {ℓ} : {U : Type ℓ} → (U → ℕ) → Option U → Option ℕ
value_of to_nat none = none
value_of to_nat (some u) = some (to_nat u)

-- `to_nat` is the number that a word stands for. A checked product is `None` exactly on overflow.
pub record IsUnsigned {ℓ} (U : Type ℓ) ⦃w : Word U⦄ : Type ℓ where
  pub to_nat : U → ℕ
  pub to_nat_lt : (u : U) → to_nat u < u256_mod
  pub to_nat-from : (n : ℕ) → n < u64_mod → to_nat (w.from n) ≡ n
  pub to_nat-one : to_nat w.one ≡ 1
  pub is_zero-eq : (u : U) → w.is_zero u ≡ (to_nat u == 0)
  pub le-eq : (u v : U) → w.le u v ≡ leb (to_nat u) (to_nat v)
  pub checked_mul-eq :
      (u v : U)
      → value_of to_nat (w.checked_mul u v)
        ≡ (if ltb (to_nat u * to_nat v) u256_mod then some (to_nat u * to_nat v) else none)

-- The laws can be met: residues.
abbrev residue : ℕ → ℕ
residue n = n % u256_mod

abbrev product : ℕ → ℕ → Option ℕ
product u v = if ltb (residue u * residue v) u256_mod then some (residue u * residue v) else none

instance abbrev pub nat_word : Word ℕ
nat_word = record {
  from = λ n. n;
  one = 1;
  is_zero = λ u. residue u == 0;
  le = λ u v. leb (residue u) (residue v);
  checked_mul = product;
}

pub product-eq :
    (u v : ℕ)
    → value_of residue (product u v)
      ≡ (if ltb (residue u * residue v) u256_mod then some (residue u * residue v) else none)
product-eq u v = ground arith

abbrev pub nat-IsUnsigned : IsUnsigned ℕ
nat-IsUnsigned = record {
  to_nat = residue;
  to_nat_lt = omega arith;
  to_nat-from = omega arith;
  to_nat-one = refl;
  is_zero-eq = λ u. refl;
  le-eq = λ u v. refl;
  checked_mul-eq = product-eq;
}
