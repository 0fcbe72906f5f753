-- ===== src/Tags/Tests.antt =====
-- src/tags.rs and src/recovery/marker_snapshots.rs: a registry of capacity one, and its readers.
use amalgam.Prelude.{◌≤◌, ◌≡◌, refl, ◌⊎◌, inr, false, ◌&&◌, some, List, [], ◌∷◌, arith}
use amalgam.Prelude.Int.{pos, negsuc, leb_ℤ}
use amalgam.Prelude.Text.{Text, text_leb, trim, trim_end, trim_start}
use amalgam.Prelude.Assoc.{lookup, insert}
use amalgam.Prelude.Result.{ok, err}
use amalgam.Options.Values.{RemoveByTagBehavior, prefix}
use amalgam.Tags.Tag.{Tag}
use amalgam.Tags.Marker.{tag, limits, zero_capacity, blank_wire_version}
use amalgam.Tags.OrderedHex.{ordered_hex, from_ordered_hex}
use amalgam.Tags.OrderedHex.Order.{from_ordered_hex-ordered_hex, ordered_hex-order}
use amalgam.Tags.Scope.{scope}
use amalgam.Tags.Registry.{
  TagRegistry, TagVerdict, default_registry, with_capacity, empty_state, advance, advance_registry,
  judge, evaluate, mark_tag, mark_clear_expire, mark_clear_remove, marker_version, tag_count, read,
}
use amalgam.Tags.Registry.Laws.{rank, concerns, demand}
use amalgam.Tags.Registry.Safety.{IsPublished, advance_registry-safe, advance_precise}

abbrev red : Tag
red = record { text = b'r' ∷ [] }

abbrev blue : Tag
blue = record { text = b'b' ∷ [] }

abbrev small : TagRegistry
small = record default_registry { capacity = 1 }

small-IsPublished : IsPublished small
small-IsPublished = record { current = refl; quiet = inr refl; bounded = omega arith }

-- One mark is read back and counted; a clear that keeps fallbacks expires what it covers.
registry_runs :
    (marker_version (mark_tag small red (pos 4)) (tag red) ≡ some (pos 4))
    × (tag_count (mark_tag small red (pos 4)) ≡ 1)
    × (evaluate (mark_clear_expire small (pos 4)) (pos 3) [] RemoveByTagBehavior.remove
        ≡ TagVerdict.expire)
    × (evaluate (mark_clear_remove small (pos 4)) (pos 5) [] RemoveByTagBehavior.remove
        ≡ TagVerdict.valid)
    × (with_capacity 0 ≡ err zero_capacity)
    × (limits 4 0 ≡ err zero_capacity)
unfolding marker_version tag_count mark_tag mark_clear_expire mark_clear_remove evaluate judge
    advance_registry advance with_capacity limits read lookup insert
registry_runs = (refl, refl, refl, refl, refl, refl)

scope_refuses : scope [] (b' ' ∷ []) prefix ≡ err blank_wire_version
unfolding scope trim trim_end trim_start
scope_refuses = refl

advance_registry-safe_example :
    IsPublished (advance_registry small (tag red) (pos 4)).0
    × (rank (evaluate small (pos 3) (red ∷ []) RemoveByTagBehavior.expire)
        ≤ rank (
            evaluate
              (advance_registry small (tag red) (pos 4)).0
              (pos 3)
              (red ∷ [])
              RemoveByTagBehavior.expire))
    × (((concerns (tag red) (red ∷ []) && leb_ℤ (pos 3) (pos 4)) ≡ false)
        ⊎ (rank (demand (tag red) RemoveByTagBehavior.expire)
            ≤ rank (
                evaluate
                  (advance_registry small (tag red) (pos 4)).0
                  (pos 3)
                  (red ∷ [])
                  RemoveByTagBehavior.expire)))
advance_registry-safe_example =
    advance_registry-safe small (tag red) (pos 4) (pos 3) (red ∷ []) RemoveByTagBehavior.expire
      small-IsPublished

advance_precise_example :
    judge (advance empty_state (tag red) (pos 4) 1).0 (pos 3) (blue ∷ []) RemoveByTagBehavior.remove
    ≡ judge empty_state (pos 3) (blue ∷ []) RemoveByTagBehavior.remove
advance_precise_example =
    advance_precise empty_state (tag red) (pos 4) 1 (pos 3) (blue ∷ []) RemoveByTagBehavior.remove
      (omega arith) refl

abbrev raw : List Text
raw = (b'x' ∷ []) ∷ (b' ' ∷ []) ∷ []

from_ordered_hex-ordered_hex_example : from_ordered_hex (ordered_hex (negsuc 4)) ≡ ok (negsuc 4)
from_ordered_hex-ordered_hex_example =
    from_ordered_hex-ordered_hex (negsuc 4) (omega arith, omega arith)

ordered_hex-order_example :
    text_leb (ordered_hex (negsuc 4)) (ordered_hex (pos 3)) ≡ leb_ℤ (negsuc 4) (pos 3)
ordered_hex-order_example =
    ordered_hex-order (negsuc 4) (pos 3) (omega arith, omega arith) (omega arith, omega arith)
