-- ===== src/Webhook/Signal.antt =====
-- The signal that a worker is sent.
use algo_trading_broker.Prelude.{◌≡◌, ap, ◌∙◌}
use algo_trading_broker.Prelude.Texts.{Text, upper, strip, split, last_piece, Lacks}
use algo_trading_broker.Prelude.Texts.Laws.{
  All-strip, All-last_piece, strip_idem, upper-IsUpper, upper_of_IsUpper, upper-Lacks_colon,
  IsUpper, split-Lacks, split_of_Lacks,
}
use algo_trading_broker.Webhook.{normalise_symbol}

normalise_symbol-Lacks_colon : (symbol : Text) → Lacks 58 (normalise_symbol symbol)
unfolding normalise_symbol
normalise_symbol-Lacks_colon symbol =
    All-strip _ _ (upper-Lacks_colon _ (All-last_piece _ (split 58 symbol) (split-Lacks 58 symbol)))

normalise_symbol-IsUpper : (symbol : Text) → IsUpper (normalise_symbol symbol)
unfolding normalise_symbol
normalise_symbol-IsUpper symbol = All-strip _ _ (upper-IsUpper _)

normalise_symbol-strip : (symbol : Text) → strip (normalise_symbol symbol) ≡ normalise_symbol symbol
unfolding normalise_symbol
normalise_symbol-strip symbol = strip_idem _

normalise_fixed : (t : Text) → Lacks 58 t → IsUpper t → strip t ≡ t → normalise_symbol t ≡ t
unfolding normalise_symbol
normalise_fixed t n u s =
    ap (λ ps. strip (upper (last_piece ps))) (split_of_Lacks 58 t n)
    ∙ ap strip (upper_of_IsUpper t u)
    ∙ s

-- The symbol that a worker sees has no exchange prefix left and no lower-case letter, and to
-- normalise it again changes nothing.
pub normalise_symbol-canonical :
    (symbol : Text)
    → Lacks 58 (normalise_symbol symbol)
      × IsUpper (normalise_symbol symbol)
      × (normalise_symbol (normalise_symbol symbol) ≡ normalise_symbol symbol)
normalise_symbol-canonical symbol = (
  normalise_symbol-Lacks_colon symbol,
  normalise_symbol-IsUpper symbol,
  normalise_fixed _ (normalise_symbol-Lacks_colon symbol) (normalise_symbol-IsUpper symbol)
      (normalise_symbol-strip symbol),
)
