-- ===== src/Upload/Tests.antt =====
-- An upload over partial files that fit and that do not, with tools that are written out.
use mathlib.Core.List.{flatten}
use cross_host_ops.Base.{
  ◌<◌, ◌≡◌, ap, List, [], ◌∷◌, append-nil, Option, none, some, arith, length, All, Text, codes,
  lookup, ok, err, Result,
}
use cross_host_ops.Base64
use cross_host_ops.Base64.{Decoder, new_decoder, new_encoder, encode_all, wire_len_for}
use cross_host_ops.Base64.Standard.{standard_engine}
use cross_host_ops.Base64.RoundTrip.{feed-encode_all}
use cross_host_ops.Base64.Wire.{length-encode_all, wire_len_for-ge}
use cross_host_ops.Upload.{Tools, Remote, upload, tmp_path}
use cross_host_ops.Upload.Whole.{upload_whole}

abbrev output : Result Base64.Error (Decoder × Text) → Option Text
output (ok (d, out)) = some out
output (err e) = none

abbrev decode : Text → Option Text
decode wire = output (Base64.feed (new_decoder (length wire)) wire)

decode-encode_all_standard :
    (chunks : List Text)
    → All (λ b. b < 256) (flatten chunks)
    → decode (encode_all standard_engine new_encoder chunks).1 ≡ some (flatten chunks)
decode-encode_all_standard chunks small =
    let wire = (encode_all standard_engine new_encoder chunks).1 in
    let long = (length-encode_all standard_engine chunks small).0 in
    let wide = wire_len_for-ge (length (flatten chunks)) in
    ap output (feed-encode_all standard_engine (length wire) chunks small (omega arith)).1

flatten_single : (s : Text) → flatten (s ∷ []) ≡ s
unfolding flatten
flatten_single s = append-nil s

abbrev tools : Tools
tools = record {
  engine = standard_engine;
  sha256 = λ s. s;
  reads = λ s. s ∷ [];
  base64_decode = decode;
  flatten-reads = flatten_single;
  base64_decode-encode_all = decode-encode_all_standard;
}

-- A partial file that is no start of the source.
abbrev wrong : Remote
wrong = (codes "out.xho_tmp", codes "ha") ∷ []

upload_whole_example :
    (remote' : Remote) × (upload tools (codes "f") (codes "hello") (codes "out") wrong ≡ ok remote')
    × (lookup (codes "out") remote' ≡ some (codes "hello"))
    × (lookup (tmp_path (codes "out")) remote' ≡ none)
upload_whole_example =
    upload_whole tools (codes "f") (codes "hello") (codes "out") wrong (omega arith) (λ part f e. e)
