-- ===== src/CoSim/Start.antt =====
-- Gateway::Connect on a fresh gateway, and the invariant.
use ns3_cosim.Common.{◌≡◌, refl, ap, subst, true, false, not, arith, ℤ, length}
use ns3_cosim.Simulator.{Simulator}
use ns3_cosim.Gateway.{
  Call, World, ok, >>=-eq-ok, refuse, connected, stop, wait_for_next_update, forward_up,
  do_initialize, handle_update, model, is_created, is_model, Network, is_negative, is_positive,
}
use ns3_cosim.Gateway.Handlers.{schedule_wait, connect, open_connection}
use ns3_cosim.CoSim.Sound.{
  schedule_destroy-IsSound, schedule_destroy-forwards, forwards-eq-zero, is_forward, forwards,
}
use ns3_cosim.CoSim.Main.{IsMain, schedule_wait-IsMain}
use ns3_cosim.CoSim.{IsFresh, initial}
use ns3_cosim.CoSim.Stream.{framed, Inv}
use ns3_cosim.Simulator.Queue.{All-map}

model-forward : (c : Call) → is_model c ≡ true → is_forward c ≡ false
model-forward (model n) h = refl
model-forward forward_up h = cc
model-forward stop h = cc
model-forward wait_for_next_update h = cc
model-forward (do_initialize v) h = cc
model-forward (handle_update v) h = cc

module _ (S : Simulator Call) where
  open S use {Sim, events, issued, schedule_destroy}

  module _ (socket : ℤ) (w : World Sim) (f : IsFresh S w) where
    no_forwards : forwards S w.sim ≡ 0
    no_forwards = forwards-eq-zero S w.sim (
        All-map (λ e. is_model e.call ≡ true) (λ e. is_forward e.call ≡ false)
          (λ e m. model-forward e.call m) (events w.sim) f.only_model)

    open_connection-IsMain : IsMain S 0 (open_connection S socket w)
    unfolding open_connection
    open_connection-IsMain =
        schedule_wait-IsMain S 0 opened (schedule_destroy-IsSound S w.sim stop f.ordered f.issued) (
          omega
            (arith, no_forwards, schedule_destroy-forwards S w.sim stop, ap length f.no_messages))
      where
        opened : World Sim
        opened =
            let (s, u) = schedule_destroy w.sim stop in
            record w {
              gateway = record (w.gateway) {
                event_wait = u;
                event_destroy = u;
                state = connected;
                socket = socket;
                socket_open = true;
                joinable = true;
              };
              sim = s;
            }

    open_connection-Inv : Inv S (initial S (open_connection S socket w))
    unfolding open_connection schedule_wait framed
    open_connection-Inv = record {
      main = open_connection-IsMain;
      has_message = f.has_message;
      has_field = f.has_field;
      all_bytes = rw (f.no_messages, f.no_buffer);
      lacks = rw f.no_messages tt;
      stops = λ b e. cc;
    }

  connect-eq :
      (net : Network) (w w' : World Sim)
      → connect S net w ≡ ok w'
      → open_connection S net.socket_result w ≡ w'
  unfolding connect
  connect-eq net w w' h =
      let (_, _, h1) = >>=-eq-ok (refuse (not (is_created w.gateway.state)) _) _ h in
      let (_, _, h2) = >>=-eq-ok (refuse (is_negative net.socket_result) _) _ h1 in
      let (_, _, h3) = >>=-eq-ok (refuse (not (is_positive net.pton_result)) _) _ h2 in
      let (_, _, h4) = >>=-eq-ok (refuse (is_negative net.connect_result) _) _ h3 in cc h4

  pub connect-Inv :
      (net : Network) (w w' : World Sim)
      → IsFresh S w
      → connect S net w ≡ ok w'
      → Inv S (initial S w')
  connect-Inv net w w' f h =
      subst (λ v. Inv S (initial S v)) (connect-eq net w w' h)
        (open_connection-Inv net.socket_result w f)
