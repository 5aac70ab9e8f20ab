-- ===== src/S3/VersionId.antt =====
-- core/internal/resources/s3/domain/state_versions.go: the identifier of a version.
use Prim.Native.String.{String, ◌++◌}
use mildstack.Prelude.{ℕ, zero, suc, ◌-◌}
use mildstack.Prelude.Numeral.{itoa}

unfoldable pub text_length : String → ℕ
text_length String.[] = 0
text_length (String.◌∷◌ c s) = suc (text_length s)

-- `count` zeros in front of the digits
unfoldable pub zeros : ℕ → String → String
zeros zero digits = digits
zeros (suc count) digits = "0" ++ zeros count digits

-- `fmt.Sprintf("v%020d", sequence)`
unfoldable pub version_id_for_sequence : ℕ → String
unfolding zeros itoa text_length
version_id_for_sequence sequence = "v" ++ zeros (20 - text_length (itoa sequence)) (itoa sequence)
