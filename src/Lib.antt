-- ===== src/Lib.antt =====
-- Verification of VoxLattice, a remote speech enhancer: a server that runs a neural network over
-- live audio in hops of 256 samples, and a LiveKit plugin that sends microphone audio to it and
-- falls back to the raw audio when an answer is late.
--
-- The program's parts. On the server (services/fastenhancer-server/src/fastenhancer_server) a client's
-- stream is one `StreamSession`. The request reader (`service.py`, `_read_requests`) checks each chunk,
-- cuts it into hops with `PCMRechunker` and enqueues them; the scheduler (`scheduler.py`, `_run`) takes
-- one hop of each ready stream, runs the model over the batch and queues the output of the hop before;
-- the handler (`service.py`, `Enhance`) sends what is queued. The three are tasks of one event loop and
-- share the session. In the plugin (packages/livekit-plugins-fastenhancer) two timelines hold the raw and
-- the enhanced audio by absolute sample number, and a worker thread (`transport.py`) sends the raw audio over
-- one call after another and hands back what the server answers. An example client does so for a file.
--
-- The files.
--   Base              names of the library, tests and lists over the native numbers, integers, floats as
--                     comparisons see them, Python's exceptions.
--   Protocol          proto/fastenhancer/v1/enhancement.proto: the messages.
--   Timeline          timeline.py: ContiguousPcm is `ContiguousPCM`, EnhancedSegments is `EnhancedSegments`.
--                     ContiguousPcm/Window states the buffer as a suffix of all that was appended;
--                     EnhancedSegments/Spec the abstract map from byte positions to bytes.
--   Audio             audio.py: Int16 and Pcm the conversions, Rechunker `PCMRechunker`.
--   Plugin/Processor  processor.py: each function is one block under the lock, `process` the blocks of
--                     `_process` in a row. Effects and Kept hold the invariant, Process what one call
--                     returns, Safety the blocks of the threads in any order.
--   Plugin/Config     processor.py, `RemoteFastEnhancerConfig`; Plugin/StreamInfo the metadata of the stream.
--   Plugin/Transport  transport.py, `GRPCWorker`: the methods on the queue. Text is `truncate_utf8`, Room the queue
--                     under the locked blocks, puts and gets of all threads, Requests `_request_iterator`, Responses
--                     `_validate_accepted` and `_run_generation`, Run the loop of `_run`, with its waits in
--                     Run/Backoff and Run/Doubling and its callbacks in Run/Generations.
--   Server/Start      service.py: `_validate_start`, `_authenticated`, `_capabilities`, the sizes of the queues.
--   Server/Call       service.py, `Enhance` from the token to the first answer.
--   Server/Model      model.py: the checks of the constructor.
--   Server/Settings   settings.py.
--   Server/Queue      `asyncio.Queue` and `queue.Queue`, as the code uses them.
--   Server/Session    session.py. Server/Metrics: the counters and gauges of metrics.py.
--   Server/Scheduler  scheduler.py for one stream: `notify`, `_fail`, `_complete`, and the two loop bodies of
--                     `_run` before and after the inference (`collect`, `apply_result`). Batch has the same
--                     loops over a batch of several streams, which share a store of sessions.
--   Server/Service    service.py for one stream: `_read_requests` (`read_request`), `_accept_audio`,
--                     `_finish_input`, `_emit_failure`, the loop of `Enhance` and its `finally`.
--   Server/Registry   service.py, `StreamRegistry`; Registry/Refines sets it against a map and a count.
--   Server/Caches     model.py: `StreamCaches`, `combine_stream_caches`, `split_stream_caches`; Caches/Infer is
--                     `initialize_stream`, `infer_batch` and `warm_up`.
--   Server/Pipeline   pipeline.py.
--   Server/System     the tasks of a stream as a transition system. A step is the code between two awaits of
--                     one task; what other streams do is a step that changes the shared metrics and queue.
--                     Invariant and Steps hold the proof, Promises what follows for a client, Run an
--                     executable schedule, Origin the first sample through all steps.
--   Client            examples/grpc-client/client.py: Sends its messages, Accepts its checks of the answer.
--   Composition       the worker of the plugin on a stream of the server.
--
-- How the code is modelled. A Python method is a function from the object to the new object, with `Result`
-- where it raises and `Option` where it waits; an integer is a natural number, as no count is ever negative,
-- but for values that a check refuses when they are. A bytearray is a list of numbers, a text a native one.
-- Single-precision arithmetic is torch's: the record `Float32` of Audio/Pcm holds the operations called and
-- what is documented of them on 16-bit samples; the record `Torch` of Server/Caches does so for shapes,
-- concatenation and slices of tensors. In the transition system the result of the inference is any 512 bytes
-- and any caches. A float of the configuration or the settings is NaN or a place in the order of the floats
-- (Base/Float); a delay of the worker is a whole multiple of the least positive float, which every finite
-- float is, and what it becomes times a draw of `random.uniform` is an input of each turn of the loop. The loop of `_drain_full_hops` runs on fuel, one more than the pending
-- samples, and each round takes 256 of them; the loop of the client over its chunks on as much as there are
-- bytes, and each round takes two at least. The loop of `_run` runs over the turns that come.
--
-- Not modelled: times that feed histograms, the creation of tasks and threads, grpc's channels and calls, the
-- reading of files, the entry points of the server, the vendored network, generated code, tools and
-- benchmarks.
pub mod Base
pub mod Protocol
pub mod Timeline
pub mod Audio
pub mod Client
pub mod Composition
pub mod Server
pub mod Plugin
