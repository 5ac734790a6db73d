-- ===== src/StoreBindings/Laws.antt =====
-- The Store that the bindings accept is the one derived from the approved escrow.
use san_layerzero_bridge.Base.{
  ℕ, ◌≡◌, ◌∙◌, String, some, [], ◌∷◌, >>-eq-ok, >>=-eq-ok, or_throw, or_throw-eq-ok, ap, nat_Eq,
}
use san_layerzero_bridge.Base.Accepts.{Accepts, throw_if-eq}
use san_layerzero_bridge.Config.{canonical_san_mint, production_solana_oft_program}
use san_layerzero_bridge.External.{External, text, key}
use san_layerzero_bridge.StoreBindings.{new_public_key, require_oft_store_asset_bindings}

pub record IsBound (x : External) (store mint escrow approved : String) : Type 0 where
  pub escrow_key : ℕ
  pub mint_key : ℕ
  pub program : ℕ
  pub store_key : ℕ
  pub reads_escrow : x.public_key escrow ≡ some escrow_key
  pub reads_approved : x.public_key approved ≡ some escrow_key
  pub reads_mint : x.public_key mint ≡ some mint_key
  pub reads_canonical : x.public_key canonical_san_mint ≡ some mint_key
  pub reads_program : x.public_key production_solana_oft_program ≡ some program
  pub reads_store : x.public_key store ≡ some store_key
  pub derived : x.find_program_address (text "OFT" ∷ key escrow_key ∷ []) program ≡ some store_key

-- The bindings are accepted only when the Store's mint is the canonical one, its escrow is the
-- approved one, and its own address is the one derived from that escrow under the production program.
pub require_oft_store_asset_bindings-IsBound :
    (x : External) (store mint escrow approved : String)
    → Accepts (require_oft_store_asset_bindings x store mint escrow approved)
    → IsBound x store mint escrow approved
unfolding require_oft_store_asset_bindings
require_oft_store_asset_bindings-IsBound x store mint escrow approved h =
    let (s, reads_store, h₁) = >>=-eq-ok (new_public_key x store) _ h in
    let (m, reads_mint, h₂) = >>=-eq-ok (new_public_key x mint) _ h₁ in
    let (e, reads_escrow, h₃) = >>=-eq-ok (new_public_key x escrow) _ h₂ in
    let (a, reads_approved, h₄) = >>=-eq-ok (new_public_key x approved) _ h₃ in
    let (c, reads_canonical, h₅) = >>=-eq-ok (new_public_key x canonical_san_mint) _ h₄ in
    let (mint_same, h₆) = >>-eq-ok _ _ h₅ in
    let (escrow_same, h₇) = >>-eq-ok _ _ h₆ in
    let (p, reads_program, h₈) = >>=-eq-ok (new_public_key x production_solana_oft_program) _ h₇ in
    let (d, derives, store_same) =
      >>=-eq-ok (or_throw (x.find_program_address (text "OFT" ∷ key a ∷ []) p) _) _ h₈ in
    let m_eq : m ≡ c = throw_if-eq m c _ mint_same in
    let e_eq : e ≡ a = throw_if-eq e a _ escrow_same in
    let s_eq : s ≡ d = throw_if-eq s d _ store_same in
    record {
      escrow_key = a;
      mint_key = c;
      program = p;
      store_key = d;
      reads_escrow = or_throw-eq-ok _ _ reads_escrow ∙ ap some e_eq;
      reads_approved = or_throw-eq-ok _ _ reads_approved;
      reads_mint = or_throw-eq-ok _ _ reads_mint ∙ ap some m_eq;
      reads_canonical = or_throw-eq-ok _ _ reads_canonical;
      reads_program = or_throw-eq-ok _ _ reads_program;
      reads_store = or_throw-eq-ok _ _ reads_store ∙ ap some s_eq;
      derived = or_throw-eq-ok _ _ derives;
    }
