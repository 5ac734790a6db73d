-- ===== src/Scan/Solana/Receiver.antt =====
-- `readOftReceiver`: the receiver of an OFT message is read back from its hexadecimal text.
use san_layerzero_bridge.Base.{
  ℕ, String, ◌≡◌, refl, ap, ◌∙◌, inl, inr, List, ltb, Bool-cases, if◌then◌else◌, ok, err, throw_if,
  ◌>>◌, length, All,
}
use Prim.Native.String.{char_at}
use Prim.Native.String as Str
use Prim.Native.String.append
use san_layerzero_bridge.Base.BigInt.{drop_text}
use san_layerzero_bridge.Base.Text.{concat, has_0x}
use san_layerzero_bridge.Base.Bytes.{to_hex, prefix}
use san_layerzero_bridge.Base.Bytes.Laws.{IsByte, from-to_hex}
use san_layerzero_bridge.Scan.Solana.Messages.{strip_0x, read_oft_receiver}

append_0x : (s : String) → concat "0x" s ≡ Str.◌∷◌ (char_at "0" 0) (Str.◌∷◌ (char_at "x" 0) s)
append_0x s =
    append.cons (char_at "0" 0) "x" s
    ∙ ap (λ t. Str.◌∷◌ (char_at "0" 0) t)
        (append.cons (char_at "x" 0) "" s ∙ ap (λ t. Str.◌∷◌ (char_at "x" 0) t) (append.nil s))

strip_0x-append : (s : String) → strip_0x (concat "0x" s) ≡ s
unfolding strip_0x has_0x drop_text
strip_0x-append s = rw (append_0x s) refl

-- A message, written as `0x` and the hexadecimal digits of its bytes, is refused where it has fewer
-- than 40 bytes; of any other the receiver is the text of its first 32 bytes.
pub read_oft_receiver-to_hex :
    (bytes : List ℕ)
    → All IsByte bytes
    → read_oft_receiver (concat "0x" (to_hex bytes)) ≡ (
        if ltb (length bytes) 40
        then err "LayerZero OFT packet message is shorter than 40 bytes"
        else ok (concat "0x" (to_hex (prefix 32 bytes))))
unfolding read_oft_receiver throw_if ◌>>◌
read_oft_receiver-to_hex bytes h =
    rw (strip_0x-append (to_hex bytes), from-to_hex bytes h)
      (elim (Bool-cases (ltb (length bytes) 40)) [
        | inl short ↦ rw short refl
        | inr long ↦ rw long refl
      ])
