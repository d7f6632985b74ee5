-- ===== src/Orders/Decimals.antt =====
-- server/src/order_book/types.rs: how a price and a size are read from a text and printed, at any
-- operations of `f64`. The operations are the language's; nothing is assumed of them.
use order_book_server.Base.{ℕ, Option, some, [], ◌∷◌, reverse, if◌then◌else◌, ◌==◌, ◌>>=◌}
use order_book_server.OrderBook.Types.{Text}

-- The operations on an `f64`: `parse::<f64>`, `as f64`, `*`, `/`, `round() as u64`, the format
-- `{:.8}`, and the constant `MULTIPLIER`.
pub record F64 (F : Type 0) : Type 0 where
  pub of_text : Text → Option F
  pub of_nat : ℕ → F
  pub times : F → F → F
  pub over : F → F → F
  pub rounded : F → ℕ
  pub eight_decimals : F → Text
  pub multiplier : F

abbrev pub trim_start_matches : ℕ → Text → Text
trim_start_matches c [] = []
trim_start_matches c (x ∷ xs) =
    let rest = trim_start_matches c xs in if x == c then rest else x ∷ xs

abbrev pub trim_end_matches : ℕ → Text → Text
trim_end_matches c t = reverse (trim_start_matches c (reverse t))

module _ {F : Type 0} (ops : F64 F) where
  abbrev pub parse_from_str : Text → Option ℕ
  parse_from_str t = do value ← ops.of_text t; some (ops.rounded (ops.times value ops.multiplier))

  abbrev pub to_str : ℕ → Text
  to_str n =
      let s = ops.eight_decimals (ops.over (ops.of_nat n) ops.multiplier) in
      trim_end_matches b'.' (trim_end_matches b'0' s)
