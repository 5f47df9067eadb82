-- ===== src/Server/Store/Order.antt =====
-- The order of entries by version (server/rpc.go compares nothing else), and the laws of `join`.
use psk_db.Prelude.{◌≡◌, refl, Option, none, some, arith, ap, int_laws, ◌≤ℤ◌, ≤ℤ_refl, eq_of_parts}
use psk_db.Server.State.{KeyValueInfo}
use psk_db.Server.Store.Merge.{join}

-- The second holds a version that is at least the first's.
abbrev pub VersionLe : Option KeyValueInfo → Option KeyValueInfo → Type 0
VersionLe none b = Unit
VersionLe (some a) none = ⊥
VersionLe (some a) (some b) = a.version ≤ℤ b.version

-- One key, and one value for each version.
abbrev pub Agree : Option KeyValueInfo → Option KeyValueInfo → Type 0
Agree none b = Unit
Agree (some a) none = Unit
Agree (some a) (some b) = (a.key ≡ b.key) × (a.version ≡ b.version → a.value ≡ b.value)

pub VersionLe-refl : (a : Option KeyValueInfo) → VersionLe a a
VersionLe-refl none = tt
VersionLe-refl (some a) = ≤ℤ_refl a.version

pub VersionLe-trans : (a b c : Option KeyValueInfo) → VersionLe a b → VersionLe b c → VersionLe a c
VersionLe-trans none b c h k = tt
VersionLe-trans (some a) none c h k = absurd h
VersionLe-trans (some a) (some b) none h k = k
VersionLe-trans (some a) (some b) (some c) h k = omega arith

pub VersionLe-join_left : (a b : Option KeyValueInfo) → VersionLe a (join a b)
VersionLe-join_left none b = tt
VersionLe-join_left (some a) none = ≤ℤ_refl a.version
VersionLe-join_left (some a) (some b) = ground arith

pub VersionLe-join_right : (a b : Option KeyValueInfo) → VersionLe b (join a b)
VersionLe-join_right none b = VersionLe-refl b
VersionLe-join_right (some a) none = tt
VersionLe-join_right (some a) (some b) = ground arith

pub join-VersionLe :
    (a b c : Option KeyValueInfo) → VersionLe a c → VersionLe b c → VersionLe (join a b) c
join-VersionLe none b c h k = k
join-VersionLe (some a) none c h k = h
join-VersionLe (some a) (some b) none h k = absurd h
join-VersionLe (some a) (some b) (some c) h k = ground arith

-- Entries of equal version that agree are equal.
same_version : (a b : KeyValueInfo) → Agree (some a) (some b) → a.version ≡ b.version → a ≡ b
same_version a b g e = ground (arith, g.1 e)

pub join_comm : (a b : Option KeyValueInfo) → Agree a b → join a b ≡ join b a
join_comm none none g = refl
join_comm none (some b) g = refl
join_comm (some a) none g = refl
join_comm (some a) (some b) g = ground (arith, eq_of_parts a.version b.version)

pub join_stale : (a b : KeyValueInfo) → b.version ≤ℤ a.version → join (some a) (some b) ≡ some a
join_stale a b h = ground arith

pub Agree-of_versions :
    (a b : Option KeyValueInfo) → VersionLe a b → VersionLe b a → Agree a b → a ≡ b
Agree-of_versions none none h k g = refl
Agree-of_versions none (some b) h k g = absurd k
Agree-of_versions (some a) none h k g = absurd h
Agree-of_versions (some a) (some b) h k g = ap some (same_version a b g (omega int_laws))
