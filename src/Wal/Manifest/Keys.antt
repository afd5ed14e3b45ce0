-- ===== src/Wal/Manifest/Keys.antt =====
-- internal/scope/db/wal/manifest.go: the keys of the in-memory manifest.
use selfstack.Prelude.{ℕ, ◌↔◌, ◌≡◌, refl, ap, Bool, true, false, ◌&&◌, ◌==◌, ==→eq, eq→==, arith}
use selfstack.Prelude.Maps.{Eq}

pub data SegmentType : Type 0 where
  wal cmp : SegmentType

pub record SegmentKey : Type 0 where
  pub type : SegmentType
  pub id : ℕ

abbrev pub type_beq : SegmentType → SegmentType → Bool
type_beq wal wal = true
type_beq wal cmp = false
type_beq cmp wal = false
type_beq cmp cmp = true

type_beq_iff : (s t : SegmentType) → (type_beq s t ≡ true) ↔ (s ≡ t)
type_beq_iff wal wal = (λ _. refl, λ _. refl)
type_beq_iff wal cmp = (λ e. cc, λ e. cc)
type_beq_iff cmp wal = (λ e. cc, λ e. cc)
type_beq_iff cmp cmp = (λ _. refl, λ _. refl)

-- Go compares a struct field by field.
unfoldable pub key_beq : SegmentKey → SegmentKey → Bool
key_beq a b = type_beq a.type b.type && a.id == b.id

key_ext : (a b : SegmentKey) → a.type ≡ b.type → a.id ≡ b.id → a ≡ b
key_ext a b e e' = λ i. record { type = e i; id = e' i }

pub key_beq_iff : (a b : SegmentKey) → (key_beq a b ≡ true) ↔ (a ≡ b)
unfolding key_beq
key_beq_iff a b = (
  λ h. key_ext a b ((type_beq_iff a.type b.type).0 (both h).0) (==→eq a.id b.id (both h).1),
  λ h.
      rw ((type_beq_iff a.type b.type).1 (ap (λ k. k.type) h), eq→== a.id b.id (ap (λ k. k.id) h))
        refl,
)
  where
    both :
        (type_beq a.type b.type && a.id == b.id) ≡ true
        → (type_beq a.type b.type ≡ true) × ((a.id == b.id) ≡ true)
    both h = ground (arith, h)

pub nat_beq_iff : (a b : ℕ) → ((a == b) ≡ true) ↔ (a ≡ b)
nat_beq_iff a b = (==→eq a b, eq→== a b)

instance abbrev pub nat_eq : Eq ℕ
nat_eq = record { beq = λ a b. a == b; beq_iff = nat_beq_iff }

instance abbrev pub key_eq : Eq SegmentKey
key_eq = record { beq = key_beq; beq_iff = key_beq_iff }
