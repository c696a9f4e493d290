-- ===== src/Sentinel/Tests.antt =====
-- Runs of the scanner, and the theorems at a small stream that is cut inside the marker.
use mathlib.Core.List.{flatten}
use cross_host_ops.Base.{◌≡◌, refl, inl, List, [], ◌∷◌, ◌++◌, Text, codes, newline, carriage_return}
use cross_host_ops.Sentinel.{
  new, feed, feed_all, find_from, find_subslice, parse_code, lookahead_sentinel,
  partial_suffix_match, after_colon, find_sentinel,
}
use cross_host_ops.Sentinel.Stream.{feed_all-stops}
use cross_host_ops.Sentinel.Bytes.{Keeps, feed-Keeps}

abbrev marker : Text
marker = codes "__E__"

-- The echoed command line holds the marker too, followed by `:%s`.
abbrev echoed : List Text
echoed =
    (codes "echo __E__:%s" ++ newline ∷ [])
    ∷ codes "hi__E"
    ∷ (codes "__:12" ++ carriage_return ∷ [])
    ∷ (newline ∷ codes "$ ")
    ∷ []

echo_is_skipped : (feed_all (new marker) echoed).0.exit_code ≡ 12
unfolding feed_all feed find_sentinel find_from find_subslice lookahead_sentinel
    partial_suffix_match parse_code new after_colon
echo_is_skipped = refl

abbrev chunks : List Text
chunks = codes "ok__" ∷ codes "E__:" ∷ (codes "7" ++ newline ∷ codes "$ ") ∷ []

feed_all-stops_example : (feed_all (new marker) chunks).1 ≡ codes "ok"
unfolding flatten
feed_all-stops_example =
    (feed_all-stops marker (codes "ok") (codes "7") (newline ∷ []) (codes "$ ") chunks (λ e. cc)
      (refl, (refl, tt)) ((λ e. cc), (refl, tt)) (inl refl) refl).0

feed-Keeps_example : Keeps (new marker) (codes "ok__E") (feed (new marker) (codes "ok__E"))
unfolding new
feed-Keeps_example = feed-Keeps (new marker) (codes "ok__E") refl
