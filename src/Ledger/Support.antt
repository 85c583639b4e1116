-- ===== src/Ledger/Support.antt =====
-- src/lib/backend/portfolio.ts: isSupportedPortfolioAsset.
use Prim.Native.String.{String}
use text.Mathlib.Text.{◌==◌}
use radar_asset.Base.{Bool, false, ◌||◌, Option, none, some, if◌then◌else◌}
use radar_asset.Base.Words.{codes, word_eq, normalize_word}

abbrev is_monero : Option String → Bool
is_monero none = false
is_monero (some symbol) = word_eq (normalize_word (codes symbol)) (codes "XMR")

unfoldable pub is_supported_portfolio_asset : Option String → String → String → Bool
unfolding word_eq normalize_word
is_supported_portfolio_asset symbol asset_class market =
    if is_monero symbol
    then false
    else if market == "vn_equity"
    then (asset_class == "equity") || (asset_class == "index")
    else if market == "crypto_spot"
    then asset_class == "crypto"
    else if market == "metal_spot"
    then (asset_class == "commodity") || (asset_class == "metal")
    else false
