-- ===== src/Lib.antt =====
-- netfyr: a declarative network configuration tool for Linux. The repository has three crates.
-- crates/netfyr-state describes the configuration of devices (values, selectors, states, the schema
-- of the fields) and the plans of operations that change it. crates/netfyr-backend observes the
-- kernel and executes plans. crates/netfyr-policy reads the desired states.
--
-- The files follow the source:
--   Value            crates/netfyr-state/src/value.rs: `Value`, equality, `Display`
--   Device           source.rs, match_spec.rs, state.rs: `Source`, `Match`, `State`
--   Plan             plan.rs: observations, prefix groups, lifetimes, operations, `StateDiff`
--   Schema           schema.rs and schemas/*.json: the node tree (Types), the formats of addresses
--                    (Format), the validation of a value along a node (Walk), `SchemaRegistry`
--                    (Registry), the embedded fragments (Embedded), the removal of read-only fields
--                    (Removal), `top_level_schema` and the decoding of text (Routing) and
--                    `add_schema_node` (Extend)
--   Error            error.rs: the errors of the state crate and their text
--   Apply            apply.rs: the preparation of states
--   Yaml             yaml.rs: the reading of the two YAML formats; Write has their printing and Decode
--                    `decode_yaml` of schema.rs
--   Report           crates/netfyr-backend/src/report.rs: errors and reports
--   Executor         executor.rs: `decode` (Decode), `locate` (Locate), lifetimes (Lifetime), prefix
--                    groups and `validate_group` (Groups), `satisfied`, `check_cascade` and
--                    `removal_is_covered` (Cascade), `project` and `rebase_lifetimes` (Project),
--                    `Io`, `Execution` and its actions (Action), `step` (Step), `run`,
--                    `apply_plan`, `preview_plan`, `failed_report`, `preview_report` (Run)
--                    Step/Trace has the outside with a log of its observations and writes
--   Registry         registry.rs: registration, queries over several backends and the resolution of
--                    a plan to one backend; the trait `NetworkBackend` of lib.rs
--   Worker           worker.rs: requests, replies, and the worker's loop as a step relation; Open has
--                    the opening of a backend, Linux the worker's transport
--   Linux            linux.rs: how notifications change the generations and the deletion epoch; the
--                    messages (Messages), the receive buffer (Codec), the responses to a request
--                    (Exchange), links (Links) and addresses (Addresses), requests and `execute`
--                    (Transport), its opening (Open), the calls on a named interface (Interface),
--                    wireless interfaces and link modes (Optional), `inventory` (Inventory), and the
--                    transport as the executor's `Io` (Io). Samples has one device for the tests
--   Policy           crates/netfyr-policy/src/lib.rs: policies, providers and policy sets; Load has the
--                    reading of policy documents, Directory the loading of files and directories
-- Base holds what they share. The names are the source's; a module below a component holds proofs
-- when it is named for what it proves. Samples and Tests hold examples.
--
-- The executor takes a plan of operations on interfaces. Per operation it looks at the dependencies,
-- decodes the operation with the schema, observes the devices, locates the target, validates the
-- prefix group of an address, and then previews or writes; a written address is observed again. The
-- report has an entry for each operation. A method of `Execution` is an action: a function from the
-- fields of `Execution` and the outside world to a result, which may be an error, and the new
-- fields. The fields that an action has changed stay changed when it fails, as in the source.
--
-- A policy document is read into states (Yaml), checked against the schema (Schema) and prepared
-- for `apply` (Apply), or loaded as policies that split into static states and provider
-- declarations (Policy); the files of a directory are sorted by their paths before. Plans reach the
-- executor through a backend: the registry resolves a plan to the one backend that owns its
-- devices, and the worker of that backend takes its requests from a channel, calls the executor and
-- replies. The executor's outside is the netlink transport: an inventory is two dumps that are
-- turned into observations, with the generation that the transport gives each link; the address
-- messages are kept, and a write is built from them and sent once its target is confirmed.
-- Notifications of deletions end the generations.
--
-- What is a parameter: the outside world is a type `W`, and `Io` a record of functions on it (the
-- trait `Io` with the clock and the cancellation test). The parser of addresses of Rust's standard
-- library is `parse_addr`, the printer `display_ip`. Of the transport, `Socket`, `Ioctl` and
-- `System` are what the kernel answers, `Library` and `Frames` what the message libraries parse; a
-- packet carries what their parsers make of its body. A `Host` is what the system answers when a
-- backend opens, and a thread keeps the namespace of each of its sockets. `Listing` is what the
-- file system answers when a directory is read.
--
-- Numbers: an address is its 32 bits, an `Instant` and a `Duration` are nanoseconds, and a `u32` or
-- `u64` is a natural number whose range the source's type gives; `i128` arithmetic is on integers.
-- A mask shifts and wraps at 32 bits as in the source. All loops of these parts are structural
-- recursion on lists or trees; only `decimal` runs on fuel, the number itself plus one, and each
-- round divides the number by ten.
--
-- Not modelled: `StateMetadata` (an identifier and a timestamp that no code reads), the scheduling
-- of async tasks and their end in `Drop`; in schema.rs, the deserialisation of JSON. serde_yaml's
-- document tree is modelled as the source matches on it; its numbers, its parser and its printer are
-- parameters, and so are serde_json's results.
pub mod Base
pub mod Value
pub mod Device
pub mod Plan
pub mod Schema
pub mod Report
pub mod Executor
pub mod Registry
pub mod Worker
pub mod Linux
pub mod Error
pub mod Apply
pub mod Yaml
pub mod Policy
pub mod Samples
pub mod Tests
