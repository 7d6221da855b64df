-- ===== src/Dmr/MessageData.antt =====
-- data.go, `BuildMessageData` and `ParseMessageData`: the text of a short message. The encodings of
-- golang.org/x/text, and the binary one on its interface, are a parameter.
use go_dmr.Base.{
  ℕ, leb, ◌==◌, ◌&&◌, ◌||◌, not, Bool, if◌then◌else◌, Option, none, some, List, [], ◌∷◌, ◌++◌, ◌≢◌,
  arith,
}
use go_dmr.Base.Outcome.{Outcome, ok, err, panic}

-- What `Bytes` of the encoder and of the decoder give; `none` is an error.
pub record Codec : Type 0 where
  pub encode : List ℕ → Option (List ℕ)
  pub decode : List ℕ → Option (List ℕ)

pub data Error : Type 0 where
  not_supported coding_error : Error

abbrev pub format_utf16 : ℕ
format_utf16 = 19

-- The keys of `encodingMap`: binary, ISO 8859 but for parts 1, 9 and 11, UTF-8 and three of UTF-16.
unfoldable pub is_supported : ℕ → Bool
is_supported format =
    leb format 21 && not (format == 1 || format == 2 || format == 3 || format == 11 || format == 13)

-- `str[:bytes.IndexByte(str, 0)]`, where it has a zero.
unfoldable pub up_to_null : List ℕ → List ℕ
up_to_null [] = []
up_to_null (b ∷ bytes) = let rest = up_to_null bytes in if b == 0 then [] else b ∷ rest

unfoldable pub build_message_data : (ℕ → Codec) → List ℕ → ℕ → Bool → Outcome Error (List ℕ)
build_message_data codecs msg format terminated =
    if is_supported format
    then elim ((codecs format).encode msg) [
      | none ↦ err coding_error
      | some bytes ↦ ok (if terminated then bytes ++ (0 ∷ 0 ∷ []) else bytes)
    ]
    else err not_supported

unfoldable pub parse_message_data : (ℕ → Codec) → List ℕ → ℕ → Bool → Outcome Error (List ℕ)
parse_message_data codecs bytes format terminated =
    if is_supported format
    then elim ((codecs format).decode bytes) [
      | none ↦ err coding_error
      | some str ↦ ok (if terminated then up_to_null str else str)
    ]
    else err not_supported

pub parse_message_data-ne-panic :
    (codecs : ℕ → Codec) (bytes : List ℕ) (format : ℕ) (terminated : Bool)
    → parse_message_data codecs bytes format terminated ≢ panic
unfolding parse_message_data
parse_message_data-ne-panic codecs bytes format terminated e = ground arith
