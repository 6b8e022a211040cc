-- ===== src/Webrtc/Factory/Built.antt =====
-- The sinks that the factory builds.
use caml.Base.{
  ℕ, ◌≤◌, ◌<◌, ◌≡◌, refl, sym, ap, subst, ◌∙◌, Option, ◌↔◌, length, Bool, false, List, unwrap_or,
  leb, ◌==◌, ok, reject_if, reject_if-eq-ok, >>=-eq-ok, arith,
}
use caml.Compiler.Types.{CompiledPipeline}
use caml.Frontend.{WebrtcRtp}
use caml.Runtime.Media.{DropPolicy}
use caml.Text.{Text, codes}
use caml.Webrtc.Factory.Fields.{
  Asks-iff, network_limit_of, IsNetworkLimit-iff, final_mtu-eq, IsFrameTime-iff, AsksPolicy-iff,
  AsksSource-iff,
}
use caml.Webrtc.Factory.Wanted.{HasSettings, IsBuilt, find_webrtc-IsFirst, IsFirst-find_webrtc}
use caml.Webrtc.Factory.{
  default_queue_limit, frontend_to_runtime_drop_policy, find_webrtc, settings_of, final_mtu,
  new_configured, sender_config, build_with, build_sink,
}
use caml.Webrtc.Packetize.{WebRtcSenderConfig}
use caml.Webrtc.Sink.{WebRtcSink}
use caml.Webrtc.Sink.Machine.{Action, start, run}
use caml.Webrtc.Sink.Machine.Bounds.{run-Fits}

new_configured-eq-ok :
    (config : WebRtcSenderConfig) (queue_limit : ℕ) (policy : DropPolicy)
    {r : WebRtcSink × WebRtcSenderConfig}
    → new_configured config queue_limit policy ≡ ok r
    → (12 < config.packet_size_limit)
      × (1 ≤ queue_limit)
      × ◌≡◌ {A = WebRtcSink × WebRtcSenderConfig}
          (
            record {
              pipeline_id = config.pipeline_id;
              queue_limit = queue_limit;
              drop_policy = policy;
            },
            config,
          )
          r
unfolding new_configured
new_configured-eq-ok config queue_limit policy h =
    let (_, big, later) = >>=-eq-ok (reject_if (leb config.packet_size_limit 12) _) _ h in
    let (_, some_room, done) = >>=-eq-ok (reject_if (queue_limit == 0) _) _ later in
    let big' = reject_if-eq-ok _ _ big in
    let room' = reject_if-eq-ok _ _ some_room in (ground arith, ground arith, cc)

-- What a pipeline asks for: the settings of its first WebRTC output, and the limit of the queue.
abbrev pub wanted : CompiledPipeline → WebrtcRtp
wanted pipeline = settings_of (find_webrtc pipeline.outputs)

abbrev pub wanted_limit : CompiledPipeline → ℕ
wanted_limit pipeline = unwrap_or (wanted pipeline).queue_limit default_queue_limit

module _ (stable_ssrc : Text → ℕ) (pipeline : CompiledPipeline) where
  -- The settings of the sink and the sender, as the code computes them.
  abbrev Computed : WebrtcRtp → WebRtcSink → WebRtcSenderConfig → Type 0
  Computed asked sink config =
      (1 ≤ unwrap_or asked.queue_limit default_queue_limit)
      × (12 < final_mtu pipeline asked.mtu)
      × (config ≡ sender_config stable_ssrc pipeline asked)
      × (sink ≡ record {
        pipeline_id = pipeline.id;
        queue_limit = unwrap_or asked.queue_limit default_queue_limit;
        drop_policy = frontend_to_runtime_drop_policy asked.drop_policy;
      })

  build_sink-Computed :
      {sink : WebRtcSink} {config : WebRtcSenderConfig}
      → build_sink stable_ssrc pipeline ≡ ok (sink, config)
      → Computed (wanted pipeline) sink config
  unfolding build_sink build_with
  build_sink-Computed {sink} {config} h =
      let (_, some_room, later) = >>=-eq-ok (reject_if (wanted_limit pipeline == 0) _) _ h in
      let (big, room, e) =
        new_configured-eq-ok (sender_config stable_ssrc pipeline (wanted pipeline))
          (wanted_limit pipeline) (frontend_to_runtime_drop_policy (wanted pipeline).drop_policy)
          later in
      (
        room,
        big,
        cc (ap (λ (r : WebRtcSink × WebRtcSenderConfig). r.1) e),
        cc (ap (λ (r : WebRtcSink × WebRtcSenderConfig). r.0) e),
      )

  Computed-build_sink :
      (sink : WebRtcSink) (config : WebRtcSenderConfig)
      → Computed (wanted pipeline) sink config
      → build_sink stable_ssrc pipeline ≡ ok (sink, config)
  unfolding build_sink build_with new_configured
  Computed-build_sink sink config (room, big, ec, es) =
      let some_room : (wanted_limit pipeline == 0) ≡ false = ground arith in
      let fits : leb (final_mtu pipeline (wanted pipeline).mtu) 12 ≡ false = ground arith in
      rw (some_room, fits) (cc (ec, es))

  Computed-HasSettings :
      (asked : Option WebrtcRtp) (sink : WebRtcSink) (config : WebRtcSenderConfig)
      → Computed (settings_of asked) sink config
      → HasSettings stable_ssrc pipeline asked sink config
  Computed-HasSettings asked sink config (room, big, ec, es) = record {
    sink_id = ap (λ (s : WebRtcSink). s.pipeline_id) es;
    queue_limit =
        (Asks-iff (λ w. w.queue_limit) asked 10 sink.queue_limit refl).1
          (ap (λ (s : WebRtcSink). s.queue_limit) es);
    has_room = rw es room;
    drop_policy =
        (AsksPolicy-iff asked sink.drop_policy).1 (ap (λ (s : WebRtcSink). s.drop_policy) es);
    config_id = ap (λ (c : WebRtcSenderConfig). c.pipeline_id) ec;
    network_limit = network_limit_of pipeline.network;
    is_network_limit = (IsNetworkLimit-iff pipeline.network _).1 refl;
    packet_size_limit =
        (Asks-iff (λ w. w.mtu) asked (network_limit_of pipeline.network) config.packet_size_limit
            refl).1
          (ap (λ (c : WebRtcSenderConfig). c.packet_size_limit) ec
            ∙ final_mtu-eq pipeline (settings_of asked).mtu);
    is_large = rw ec big;
    frame_time =
        (IsFrameTime-iff pipeline.processing config.default_frame_duration).1
          (ap (λ (c : WebRtcSenderConfig). c.default_frame_duration) ec);
    codec =
        (Asks-iff (λ w. w.codec) asked (codes "h264") config.codec refl).1
          (ap (λ (c : WebRtcSenderConfig). c.codec) ec);
    payload_type =
        (Asks-iff (λ w. w.payload_type) asked 102 config.payload_type refl).1
          (ap (λ (c : WebRtcSenderConfig). c.payload_type) ec);
    ssrc =
        (AsksSource-iff stable_ssrc pipeline.id asked config.ssrc).1
          (ap (λ (c : WebRtcSenderConfig). c.ssrc) ec);
    clock_rate =
        (Asks-iff (λ w. w.clock_rate) asked 90_000 config.clock_rate refl).1
          (ap (λ (c : WebRtcSenderConfig). c.clock_rate) ec);
  }

  HasSettings-Computed :
      (asked : Option WebrtcRtp) (sink : WebRtcSink) (config : WebRtcSenderConfig)
      → HasSettings stable_ssrc pipeline asked sink config
      → Computed (settings_of asked) sink config
  HasSettings-Computed asked sink config h =
      let limit = (Asks-iff (λ w. w.queue_limit) asked 10 sink.queue_limit refl).0 h.queue_limit in
      let policy = (AsksPolicy-iff asked sink.drop_policy).0 h.drop_policy in
      let network = (IsNetworkLimit-iff pipeline.network h.network_limit).0 h.is_network_limit in
      let mtu =
        (Asks-iff (λ w. w.mtu) asked h.network_limit config.packet_size_limit refl).0
          h.packet_size_limit
        ∙ ap (unwrap_or (settings_of asked).mtu) network
        ∙ sym (final_mtu-eq pipeline (settings_of asked).mtu) in
      let time =
        (IsFrameTime-iff pipeline.processing config.default_frame_duration).0 h.frame_time in
      let codec = (Asks-iff (λ w. w.codec) asked (codes "h264") config.codec refl).0 h.codec in
      let payload_type =
        (Asks-iff (λ w. w.payload_type) asked 102 config.payload_type refl).0 h.payload_type in
      let ssrc = (AsksSource-iff stable_ssrc pipeline.id asked config.ssrc).0 h.ssrc in
      let rate =
        (Asks-iff (λ w. w.clock_rate) asked 90_000 config.clock_rate refl).0 h.clock_rate in
      (
        subst (λ n. 1 ≤ n) limit h.has_room,
        subst (λ n. 12 < n) mtu h.is_large,
        cc (h.config_id, mtu, time, codec, payload_type, ssrc, rate),
        cc (h.sink_id, limit, policy),
      )

  -- `build_sink` builds a sink exactly if there is a queue of at least 1 and room for a packet above 12
  -- bytes, and the sink and its sender have the settings that the first WebRTC output of the pipeline
  -- asks for, field by field, and the defaults where it asks for nothing or there is no such output.
  pub build_sink-IsBuilt :
      (sink : WebRtcSink) (config : WebRtcSenderConfig)
      → (build_sink stable_ssrc pipeline ≡ ok (sink, config))
        ↔ IsBuilt stable_ssrc pipeline sink config
  build_sink-IsBuilt sink config = (
    λ h. (
      find_webrtc pipeline.outputs,
      find_webrtc-IsFirst pipeline.outputs,
      Computed-HasSettings (find_webrtc pipeline.outputs) sink config (build_sink-Computed h),
    ),
    λ h.
        let (asked, first, settings) = h in
        let found = IsFirst-find_webrtc pipeline.outputs asked first in
        Computed-build_sink sink config (
          subst (λ o. Computed (settings_of o) sink config) (sym found)
            (HasSettings-Computed asked sink config settings)),
  )

-- The queue of a sink that `build_sink` built never holds more packets than the pipeline's output
-- wants (10 by default), whatever is consumed, and however the pipeline's side and the sender go on.
pub build_sink-Fits :
    (stable_ssrc : Text → ℕ) (pipeline : CompiledPipeline) (sink : WebRtcSink)
    (config : WebRtcSenderConfig) (metrics : Bool) (actions : List Action)
    → build_sink stable_ssrc pipeline ≡ ok (sink, config)
    → length (run sink metrics actions start).shared.queue ≤ wanted_limit pipeline
build_sink-Fits stable_ssrc pipeline sink config metrics actions h =
    let (room, big, ec, es) = build_sink-Computed stable_ssrc pipeline h in
    let same : sink.queue_limit ≡ wanted_limit pipeline =
      ap (λ (s : WebRtcSink). s.queue_limit) es in
    subst (λ n. length (run sink metrics actions start).shared.queue ≤ n) same
      (run-Fits sink metrics actions (omega arith))
