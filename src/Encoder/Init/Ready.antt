-- ===== src/Encoder/Init/Ready.antt =====
-- What `init` of src/encoder/encoder_controller.cpp leaves, on success and on failure.
use spout_relay.Base.{
  ℕ, suc, Bool, true, false, not, List, [], ◌∷◌, Option, none, some, String, ◌≡◌, refl, arith,
  if◌then◌else◌, choose,
}
use spout_relay.Common.Types.{EncoderConfig}
use spout_relay.Encoder.Types.{AvPixelFormat, CodecContext, Encoder, IsReady, reset}
use spout_relay.Encoder.Init.{
  CodecAnswers, GpuPath, GpuAnswers, Attempt, next, returned, no_gpu_path, try_init_gpu_path,
  finish_gpu, finish_cpu, with_codec, try_codec, try_codecs, init, codecs_to_try,
}

-- No codec is open, and nothing that a codec needs is held.
pub record IsClosed (config : EncoderConfig) (e : Encoder) : Type 0 where
  pub no_codec : e.codec_ctx ≡ none
  pub on_cpu : e.gpu_path ≡ false
  pub no_frames : e.sent ≡ []
  pub none_counted : e.frame_count ≡ 0
  pub no_null_call : e.null_call ≡ false
  pub configured : e.config ≡ config

-- Set up, with no frame sent yet.
pub record IsSetUp (config : EncoderConfig) (e : Encoder) : Type 0 where
  pub ready : IsReady e
  pub no_frames : e.sent ≡ []
  pub none_counted : e.frame_count ≡ 0
  pub configured : e.config ≡ config

-- The outcome of an initialisation that reports `ok`.
abbrev pub Result : EncoderConfig → Bool → Encoder → Type 0
Result config true e = IsSetUp config e
Result config false e = (e.codec_ctx ≡ none) × (e.sent ≡ [])

-- One attempt either goes on closed or returns an outcome.
data Tried (config : EncoderConfig) : Attempt → Type 0 where
  goes_on : {error : String} {e : Encoder} → IsClosed config e → Tried config (next error e)
  returns :
      {ok : Bool} {error : String} {e : Encoder}
      → Result config ok e
      → Tried config (returned ok error e)

module _ (config : EncoderConfig) (a : CodecAnswers) where
  finish_gpu-Tried :
      (error : String) (path : GpuPath) (pool : AvPixelFormat) (ctx : CodecContext) (e : Encoder)
      → (path.hw_frames_ctx ≡ true) × (path.d3d_ctx ≡ true)
      → IsClosed config e
      → Tried config (finish_gpu a error path pool (record e { codec_ctx = some ctx }))
  unfolding finish_gpu reset
  finish_gpu-Tried error path pool ctx e f h =
      choose (Tried config) _ (λ _. returns (refl, refl))
        λ _.
          choose (Tried config) _ (λ _. returns (refl, refl))
            λ _. returns (record {
              ready = record {
                open_codec = (ctx, refl);
                packet = refl;
                gpu_objects = λ _. (f.0, (false, refl));
                gpu_context = λ _. f.1;
                no_null_call = h.no_null_call;
                cpu_objects = λ h. cc;
              };
              no_frames = h.no_frames;
              none_counted = refl;
              configured = h.configured;
            })

  finish_cpu-Tried :
      (error : String) (ctx : CodecContext) (e : Encoder)
      → IsClosed config e
      → Tried config (finish_cpu a error (record e { codec_ctx = some ctx }))
  unfolding finish_cpu
  finish_cpu-Tried error ctx e h =
      choose (Tried config) _ (λ _. goes_on (ground arith))
        λ _.
          choose (Tried config) _ (λ _. goes_on (ground arith))
            λ _.
              choose (Tried config) _ (λ _. returns (refl, h.no_frames))
                λ _.
                  choose (Tried config) _ (λ _. returns (refl, h.no_frames))
                    λ _.
                      choose (Tried config) _ (λ _. returns (refl, h.no_frames))
                        λ _. returns (record {
                          ready = record {
                            open_codec = (ctx, refl);
                            packet = refl;
                            gpu_objects = λ g. ground arith;
                            gpu_context = λ g. ground arith;
                            no_null_call = h.no_null_call;
                            cpu_objects = λ _. (refl, refl);
                          };
                          no_frames = h.no_frames;
                          none_counted = refl;
                          configured = h.configured;
                        })

  with_codec-Tried :
      (name error : String) (what : Option String) (ctx : CodecContext) (path : GpuPath)
      (pool : AvPixelFormat) (e : Encoder)
      → (path.ok ≡ true → (path.hw_frames_ctx ≡ true) × (path.d3d_ctx ≡ true))
      → IsClosed config e
      → Tried config (with_codec a name error what ctx path pool e)
  unfolding with_codec
  with_codec-Tried name error (some what) ctx path pool e f h = goes_on h
  with_codec-Tried name error none ctx path pool e f h =
      let named : Encoder = record e { codec_name = name } in
      choose (Tried config) path.ok
        (λ ok. finish_gpu-Tried error path pool ctx named (f ok) (ground arith))
        (λ _. finish_cpu-Tried error ctx named (ground arith))

  try_init_gpu_path-frames :
      (g : GpuAnswers) (b device : Bool)
      → let path = if b then try_init_gpu_path g device else no_gpu_path in
        path.ok ≡ true → (path.hw_frames_ctx ≡ true) × (path.d3d_ctx ≡ true)
  unfolding try_init_gpu_path if◌then◌else◌
  try_init_gpu_path-frames g b device = ground arith

  try_codec-Tried :
      (name error : String) (width height : ℕ) (device : Bool) (format : ℕ) (e : Encoder)
      → IsClosed config e
      → Tried config (try_codec a name error width height device format e)
  unfolding try_codec
  try_codec-Tried name error width height device format e h =
      choose (Tried config) (not a.found) (λ _. goes_on h)
        λ _.
          choose (Tried config) (not a.context_alloc) (λ _. goes_on h)
            λ _.
              with_codec-Tried name error a.open_error _ _ _ e
                (try_init_gpu_path-frames a.gpu _ device) h

proceed :
    (config : EncoderConfig) (attempt : Attempt) (k : String → Encoder → Bool × String × Encoder)
    → ((error : String) (e : Encoder)
        → IsClosed config e
        → Result config (k error e).0 (k error e).2)
    → Tried config attempt
    → let r : Bool × String × Encoder = elim attempt [
      | next error e ↦ k error e
      | returned ok error e ↦ (ok, error, e)
    ] in
      Result config r.0 r.2
proceed config (next error e) k h (goes_on c) = h error e c
proceed config (returned ok error e) k h (returns r) = r

try_codecs-Result :
    (config : EncoderConfig) (attempts : ℕ → CodecAnswers) (i : ℕ) (names : List String)
    (error : String) (width height : ℕ) (device : Bool) (format : ℕ) (e : Encoder)
    → IsClosed config e
    → let r = try_codecs attempts i names error width height device format e in
      Result config r.0 r.2
unfolding try_codecs
try_codecs-Result config attempts i [] error width height device format e h =
    (h.no_codec, h.no_frames)
try_codecs-Result config attempts i (name ∷ names) error width height device format e h =
    proceed config _
      (λ error' e'. try_codecs attempts (suc i) names error' width height device format e')
      (λ error' e' h'.
        try_codecs-Result config attempts (suc i) names error' width height device format e' h')
      (try_codec-Tried config (attempts i) name error width height device format e h)

-- `init` that succeeds leaves an encoder with all that `encode` works on, the context that it calls
-- through on the GPU path included, and no frame counted or
-- sent, on the GPU path and on the CPU path; one that fails, at whatever call and codec of the
-- list, leaves none open.
pub init-Result :
    (attempts : ℕ → CodecAnswers) (config : EncoderConfig) (width height : ℕ) (device : Bool)
    (format : ℕ) (e : Encoder)
    → let (ok, _, e') = init attempts config width height device format e in Result config ok e'
unfolding init reset
init-Result attempts config width height device format e =
    try_codecs-Result config attempts 0 (codecs_to_try config) "" width height device format _
      (record {
        no_codec = refl;
        on_cpu = refl;
        no_frames = refl;
        none_counted = refl;
        no_null_call = refl;
        configured = refl;
      })
