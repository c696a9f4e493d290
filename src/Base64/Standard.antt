-- ===== src/Base64/Standard.antt =====
-- RFC 4648 by clauses: an engine that fulfils the laws of `Engine`.
use cross_host_ops.Base.{◌+◌, ◌*◌, ◌/◌, ◌%◌, refl, [], ◌∷◌, Text}
use cross_host_ops.Base64.{Engine, symbol, pad}

abbrev pub standard : Text → Text
standard [] = []
standard (a ∷ []) = symbol (a / 4) ∷ symbol (a % 4 * 16) ∷ pad ∷ pad ∷ []
standard (a ∷ b ∷ []) =
    symbol (a / 4) ∷ symbol (a % 4 * 16 + b / 16) ∷ symbol (b % 16 * 4) ∷ pad ∷ []
standard (a ∷ b ∷ c ∷ s) =
    symbol (a / 4)
    ∷ symbol (a % 4 * 16 + b / 16)
    ∷ symbol (b % 16 * 4 + c / 64)
    ∷ symbol (c % 64)
    ∷ standard s

abbrev pub standard_engine : Engine
standard_engine = record {
  encode_group = standard;
  encode_nil = refl;
  encode_one = λ a h. refl;
  encode_two = λ a b h k. refl;
  encode_three = λ a b c s h k l. refl;
}
