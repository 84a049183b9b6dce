-- ===== src/Gateway/Session/Order.antt =====
-- The numbers of the delivered commands over a run of packets.
use orange_pi_stm32_for_rov.Prelude.{
  ℕ, ◌<◌, Bool, true, false, ◌≡◌, Option, none, some, List, [], ◌∷◌, if◌then◌else◌, arith,
}
use orange_pi_stm32_for_rov.Gateway.Protocol.{
  PacketHeader, MsgType, connect_req, dvl_policy, msg_type_of,
}
use orange_pi_stm32_for_rov.Gateway.Codec.{Parsed, parsed, refused, parse_and_validate}
use orange_pi_stm32_for_rov.Gateway.Session.Types.{
  UdpAddress, GcsSessionConfig, Session, Nonces, send_ack, make_ack_if_req, reply,
}
use orange_pi_stm32_for_rov.Gateway.Session.Handle.{
  on_connect_req, on_connect_confirm, guard_command, DvlPolicy, dispatch,
}
use orange_pi_stm32_for_rov.Gateway.Session.Receive.{on_packet}
use orange_pi_stm32_for_rov.Gateway.Session.Commands.{delivers, run_dvl_policy-last_cmd_seq}

-- A received packet, when and whence it came, and the nonces a CONNECT_REQ would draw.
pub record Input : Type 0 where
  pub now_ns : ℕ
  pub from : UdpAddress
  pub raw : List ℕ
  pub nonces : Nonces

abbrev pub is_connect_req : Option MsgType → Bool
is_connect_req (some connect_req) = true
is_connect_req _ = false

abbrev pub reconnects : Parsed → Bool
reconnects (refused _) = false
reconnects (parsed h _) = is_connect_req (msg_type_of h.msg_type)

abbrev pub seq_of : Parsed → ℕ
seq_of (refused _) = 0
seq_of (parsed h _) = h.seq

abbrev pub IsAscending : ℕ → List ℕ → Type 0
IsAscending n [] = Unit
IsAscending n (x ∷ xs) = (n < x) × IsAscending x xs

module _ (cfg : GcsSessionConfig) (policy : DvlPolicy) where
  -- The session after a packet, and the numbers of the commands it delivered.
  unfoldable pub delivered : List Input → Session → List ℕ
  delivered [] s = []
  delivered (i ∷ is) s =
      let o = on_packet cfg policy i.nonces i.now_ns i.from i.raw s in
      let rest = delivered is o.session in
      if delivers o then seq_of (parse_and_validate i.raw) ∷ rest else rest

  pub dispatch-last_cmd_seq :
      (nonces : Nonces) (m : Option MsgType) (s : Session) (h : PacketHeader) (p : List ℕ)
      → is_connect_req m ≡ false
      → (dispatch cfg policy nonces m s h p).session.last_cmd_seq ≡ s.last_cmd_seq
  unfolding dispatch guard_command reply make_ack_if_req send_ack on_connect_req on_connect_confirm
  dispatch-last_cmd_seq nonces (some connect_req) s h p e = ground arith
  dispatch-last_cmd_seq nonces (some dvl_policy) s h p e =
      let same = run_dvl_policy-last_cmd_seq policy s h p in ground arith
  dispatch-last_cmd_seq nonces (some _) s h p e = ground arith
  dispatch-last_cmd_seq nonces none s h p e = ground arith
