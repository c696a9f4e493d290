-- ===== src/Base64/Tests.antt =====
-- Runs of the codec with a concrete engine, which shows that the laws of `Engine` can hold.
use mathlib.Core.List.{flatten}
use cross_host_ops.Base.{◌≡◌, refl, List, [], ◌∷◌, ◌++◌, arith, Text, codes, ok, newline}
use cross_host_ops.Base64.{
  Decoder, symbol, encode_all, encode, encode_lines, finish, new_encoder, new_decoder,
  finish_decoder,
}
use cross_host_ops.Base64.Chunks.{feed_all}
use cross_host_ops.Base64.RoundTrip.{decode-encode_all}
use cross_host_ops.Base64.Standard.{standard_engine}

abbrev words : List Text
words = codes "he" ∷ codes "llo" ∷ []

hello : (encode_all standard_engine new_encoder words).1 ≡ codes "aGVsbG8=" ++ newline ∷ []
unfolding encode_all encode encode_lines finish new_encoder symbol
hello = refl

abbrev wire : List Text
wire = codes "aGV" ∷ (codes "sbG8=" ++ newline ∷ []) ∷ []

decode-encode_all_example :
    (d : Decoder) × (feed_all (new_decoder 5) wire ≡ ok (d, codes "hello"))
    × (finish_decoder d ≡ ok tt)
unfolding flatten encode_all encode encode_lines finish new_encoder symbol
decode-encode_all_example = decode-encode_all standard_engine words wire (omega arith) refl
