-- ===== src/ConfigCheck/Own.antt =====
-- What the check of the deployed configuration says of the programs of Solana.
use san_layerzero_bridge.Base.{
  ◌<◌, ◌≡◌, refl, sym, ap, ◌∙◌, true, not, some, arith, ltb, ok, or_throw, ℤ, pos, length,
  string_Eq, nat_Eq, ◌!=◌, String,
}
use mathlib.Core.Path.{subst}
use san_layerzero_bridge.Base.{>>=-eq-ok, >>-eq-ok, or_throw-eq-ok, ok_inj}
use san_layerzero_bridge.Base.Accepts.{
  and-eq-IsTrue, or-eq-IsFalse, eq_iff, ne_iff, throw_if-accepts,
}
use san_layerzero_bridge.ConfigCheck.Answers.{SolanaUln, SolanaLibrary, SolanaPrograms}
use san_layerzero_bridge.ConfigCheck.Solana.{
  solana_message_lib, normalize_solana_uln, inspect_solana_programs, default_key,
}
use san_layerzero_bridge.External.{External}
use san_layerzero_bridge.LayerZero.{UlnObservation, ChainObservation}
use san_layerzero_bridge.Base.Text.{to_lower}

-- A configuration of the store itself, for the depth `confirmations`
pub record IsOwnUln (state : SolanaUln) (o : UlnObservation) (confirmations : ℤ) : Type 0 where
  pub required_dvns : o.required_dvns ≡ state.required_dvns
  pub optional_dvns : o.optional_dvns ≡ state.optional_dvns
  pub observed_threshold : o.optional_threshold ≡ pos state.optional_dvn_threshold
  pub no_required : state.required_dvn_count ≡ 255
  pub positive : 0 < state.confirmations
  pub depth : pos state.confirmations ≡ confirmations
  pub optional : 0 < state.optional_dvn_count
  pub counted : state.optional_dvn_count ≡ length state.optional_dvns

-- What an observation of Solana was read from
pub record IsReadPrograms (x : External) (programs : SolanaPrograms) (o : ChainObservation)
    : Type 0 where
  pub send_library : SolanaLibrary
  pub receive_library : SolanaLibrary
  pub send : SolanaUln
  pub receive : SolanaUln
  pub answers_send : programs.send_library ≡ ok (some send_library)
  pub answers_receive : programs.receive_library ≡ ok (some receive_library)
  pub answers_send_config : programs.send_config ≡ ok (some send)
  pub answers_receive_config : programs.receive_config ≡ ok (some receive)
  pub send_account : send_library.message_lib ≡ solana_message_lib
  pub receive_account : receive_library.message_lib ≡ solana_message_lib
  pub send_program : o.send_library ≡ send_library.program_id
  pub receive_program : o.receive_library ≡ receive_library.program_id
  pub executor : o.executor ≡ send.executor
  pub executor_set : o.executor_explicit ≡ (send.executor != default_key x)
  pub peer : (p : String) × (programs.peer ≡ ok p) × (o.peer ≡ to_lower p)
  pub send_explicit : o.send_library_explicit ≡ not send_library.is_default
  pub receive_explicit : o.receive_library_explicit ≡ not receive_library.is_default
  pub sent : o.send ≡ normalize_solana_uln send
  pub received : o.receive ≡ normalize_solana_uln receive

pub inspect_solana_programs-IsReadPrograms :
    (x : External) (programs : SolanaPrograms) {o : ChainObservation}
    → inspect_solana_programs x programs ≡ ok o
    → IsReadPrograms x programs o
unfolding inspect_solana_programs
inspect_solana_programs-IsReadPrograms x programs h =
    let (a, p, h1) = >>=-eq-ok programs.send_library _ h in
    let (b, q, h2) = >>=-eq-ok programs.receive_library _ h1 in
    let (c, r, h3) = >>=-eq-ok programs.send_config _ h2 in
    let (d, s, h4) = >>=-eq-ok programs.receive_config _ h3 in
    let (send, t, h5) = >>=-eq-ok (or_throw c _) _ h4 in
    let (receive, u, h6) = >>=-eq-ok (or_throw d _) _ h5 in
    let (sends, v, h7) = >>=-eq-ok (or_throw a _) _ h6 in
    let (receives, w, h8) = >>=-eq-ok (or_throw b _) _ h7 in
    let (accounts, h9) = >>-eq-ok _ _ h8 in
    let (send_account, receive_account) = or-eq-IsFalse _ _ (throw_if-accepts _ _ accounts) in
    let (peer, y, h10) = >>=-eq-ok programs.peer _ h9 in
    subst (IsReadPrograms x programs) (ok_inj h10) (record {
      send_library = sends;
      receive_library = receives;
      send = send;
      receive = receive;
      answers_send = p ∙ ap ok (or_throw-eq-ok _ _ v);
      answers_receive = q ∙ ap ok (or_throw-eq-ok _ _ w);
      answers_send_config = r ∙ ap ok (or_throw-eq-ok _ _ t);
      answers_receive_config = s ∙ ap ok (or_throw-eq-ok _ _ u);
      send_account = ne_iff.0 send_account;
      receive_account = ne_iff.0 receive_account;
      send_program = refl;
      receive_program = refl;
      executor = refl;
      executor_set = refl;
      peer = (peer, y, refl);
      send_explicit = refl;
      receive_explicit = refl;
      sent = refl;
      received = refl;
    })

pub normalize_solana_uln-IsOwnUln :
    (state : SolanaUln) (o : UlnObservation) (confirmations : ℤ)
    → o ≡ normalize_solana_uln state
    → o.explicit_no_required ≡ true
    → o.explicit_confirmations ≡ true
    → o.explicit_optional_dvns ≡ true
    → o.confirmations ≡ confirmations
    → IsOwnUln state o confirmations
unfolding normalize_solana_uln
normalize_solana_uln-IsOwnUln state o confirmations same a b c d =
    let set : ltb 0 state.confirmations ≡ true =
      sym (ap (λ r. r.explicit_confirmations) same) ∙ b in
    let (optional, counted) =
      and-eq-IsTrue (ltb 0 state.optional_dvn_count) _
        (sym (ap (λ r. r.explicit_optional_dvns) same) ∙ c) in
    record {
      required_dvns = ap (λ r. r.required_dvns) same;
      optional_dvns = ap (λ r. r.optional_dvns) same;
      observed_threshold = ap (λ r. r.optional_threshold) same;
      no_required = eq_iff.0 (sym (ap (λ r. r.explicit_no_required) same) ∙ a);
      positive = ground arith;
      depth = sym (ap (λ r. r.confirmations) same) ∙ d;
      optional = ground arith;
      counted = eq_iff.0 counted;
    }
