-- ===== src/Distributed/Invalidation/Keys.antt =====
-- src/distributed.rs: the keys of the invalidation store. Scopes are compared by their physical
-- namespaces, which serve as the keys in their stead.
use amalgam.Prelude.{Bool, true, ◌≡◌, ◌↔◌, ◌&&◌, arith}
use amalgam.Prelude.Assoc.{Eq}
use amalgam.Prelude.Text.{Text, text_eq, text_eq_iff}
use amalgam.Tags.Marker.{MarkerKind, tag, clear_expire, clear_remove, kind_eq, tag_eq_iff}
use amalgam.Tags.Scope.{CacheScope}

abbrev pub Namespace : Type 0
Namespace = Text × Text

abbrev pub namespace : CacheScope → Namespace
namespace scope = (scope.physical_prefix, scope.physical_suffix)

abbrev pub namespace_eq : Namespace → Namespace → Bool
namespace_eq (p, s) (q, t) = text_eq p q && text_eq s t

pub namespace_eq_iff : (a b : Namespace) → (namespace_eq a b ≡ true) ↔ (a ≡ b)
namespace_eq_iff (p, s) (q, t) = ground (arith, text_eq_iff p q, text_eq_iff s t)

pub kind_eq_iff : (a b : MarkerKind) → (kind_eq a b ≡ true) ↔ (a ≡ b)
kind_eq_iff (tag a) (tag b) = ground (arith, tag_eq_iff a b)
kind_eq_iff (tag a) clear_expire = ground arith
kind_eq_iff (tag a) clear_remove = ground arith
kind_eq_iff clear_expire (tag b) = ground arith
kind_eq_iff clear_expire clear_expire = ground arith
kind_eq_iff clear_expire clear_remove = ground arith
kind_eq_iff clear_remove (tag b) = ground arith
kind_eq_iff clear_remove clear_expire = ground arith
kind_eq_iff clear_remove clear_remove = ground arith

abbrev pub key_eq : Namespace × MarkerKind → Namespace × MarkerKind → Bool
key_eq (a, k) (b, l) = namespace_eq a b && kind_eq k l

pub key_eq_iff : (a b : Namespace × MarkerKind) → (key_eq a b ≡ true) ↔ (a ≡ b)
key_eq_iff (a, k) (b, l) = ground (arith, namespace_eq_iff a b, kind_eq_iff k l)

instance abbrev pub namespace_Eq : Eq Namespace
namespace_Eq = record { beq = namespace_eq; beq_iff = namespace_eq_iff }

instance abbrev pub snapshot_key_Eq : Eq (Namespace × MarkerKind)
snapshot_key_Eq = record { beq = key_eq; beq_iff = key_eq_iff }
