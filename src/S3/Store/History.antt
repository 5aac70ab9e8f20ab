-- ===== src/S3/Store/History.antt =====
-- core/internal/resources/s3/domain/state_versions.go: the version history grows at its end, by higher
-- sequence numbers.
use mildstack.Prelude.{ℕ, String, List, [], ◌∷◌, ◌++◌, ◌≡◌, refl, arith, ◌<◌, ◌∙◌, ap}
use mildstack.Prelude.Time.{Time}
use mildstack.S3.Domain.{Object, VersionRecord, State}
use mildstack.S3.Store.{
  max_sequence, next_sequence, record_object_version, record_delete_marker,
  version_record_from_object, delete_marker,
}
use mathlib.Core.List.{append_assoc}
use mildstack.Prelude.{lt→ltb}

-- Each sequence number is above `low` and above those in front of it.
abbrev pub IsRising : ℕ → List VersionRecord → Type 0
IsRising low [] = Unit
IsRising low (v ∷ vs) = (low < v.sequence) × IsRising v.sequence vs

max_sequence-rising :
    (low : ℕ) (w : VersionRecord) (ws : List VersionRecord)
    → low < w.sequence
    → max_sequence (w ∷ ws) low ≡ max_sequence ws w.sequence
unfolding max_sequence
max_sequence-rising low w ws h = rw (lt→ltb low w.sequence h) refl

IsRising-append :
    (low : ℕ) (vs : List VersionRecord) (v : VersionRecord)
    → IsRising low vs
    → max_sequence vs low < v.sequence
    → IsRising low (vs ++ (v ∷ []))
unfolding max_sequence
IsRising-append low [] v rising h = (h, tt)
IsRising-append low (w ∷ ws) v rising h = (
  rising.0,
  IsRising-append w.sequence ws v rising.1 (ground (arith, max_sequence-rising low w ws rising.0)),
)

-- The history is what it was, with records behind it, and rises.
unfoldable pub Extends : List VersionRecord → State → Type 0
Extends before s =
    ((more : List VersionRecord) × (s.version_history ≡ before ++ more))
    × IsRising 0 s.version_history

module _ (before : List VersionRecord) where
  Extends-append :
      (s after : State) (v : VersionRecord)
      → v.sequence ≡ next_sequence s.version_history
      → after.version_history ≡ s.version_history ++ (v ∷ [])
      → Extends before s
      → Extends before after
  unfolding Extends next_sequence
  Extends-append s after v numbered appended ((more, e), rising) = (
    (more ++ (v ∷ []), appended ∙ ap (λ h. h ++ (v ∷ [])) e ∙ append_assoc before more (v ∷ [])),
    rw appended (IsRising-append 0 s.version_history v rising (ground arith)),
  )

  pub Extends-same :
      (s after : State)
      → after.version_history ≡ s.version_history
      → Extends before s
      → Extends before after
  unfolding Extends
  Extends-same s after e ((more, f), rising) = ((more, e ∙ f), rw e rising)

  pub Extends-record_object_version :
      (o : Object) (s : State) → Extends before s → Extends before (record_object_version o s)
  unfolding record_object_version version_record_from_object
  Extends-record_object_version o s held = Extends-append s _ _ refl refl held

  pub Extends-record_delete_marker :
      (now : Time) (bucket key : String) (s : State)
      → Extends before s
      → Extends before (record_delete_marker now bucket key s)
  unfolding record_delete_marker delete_marker
  Extends-record_delete_marker now bucket key s held = Extends-append s _ _ refl refl held
