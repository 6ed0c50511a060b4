-- ===== src/Lib.antt =====
-- ZAYNOR, a local platform for forensic investigations (src/zaynor): its tamper-evident logs, the
-- seal of its results, the boundary between its agents and its evidence, and its reader of ELF
-- images.
--
-- The parts, and where they are:
--
-- - The audit log of a case, src/zaynor/audit_log.py and src/zaynor/hmac_chain.py, is AuditLog.
--   `AuditLog.Defs` has the record of a line (`AuditEntry`), the anchor beside the file
--   (`TailAnchor`), the two files (`Disk`) and `append`, which is a write of a line (`write_line`)
--   and then of the anchor (`write_tail`); a crash is the state between the two. `AuditLog.Verify`
--   has `verify_with_report`, whose messages are the constructors of `Report`, the loop over the
--   lines (`walk`, `check_entry`) and what follows it (`finish`), and `_resume` with the
--   constructor of the class (`resume`, `open_log`). The other children are proofs: `Appending`,
--   `Session`, `Passed`, `RoundTrip`, `Tamper`, `Truncation` and `Keys`.
-- - The investigator's memory, src/zaynor/investigation_log.py, is InvestigationLog. The
--   dictionary is the record `Log`; an operation returns its outcome beside the log, for what was
--   written before an exception stays written. `Defs` has `record`, `_mint_id` and `_trim`,
--   `Operations` the four operations and `Verify` has `verify_log`. `Soundness` is the invariant,
--   `Preservation` (with `Minted`) that the operations keep it, `History` the logs that they reach,
--   and `Divergence` the calls that raise after they have written.
-- - The typed boundary of an investigation, src/zaynor/agents/investigation_contracts.py, is
--   Investigation: `Values` (the payloads, `_reject_float`, `_freeze_json`, `_thaw_json`),
--   `Contracts` (`_text`, `_sha256`, `_canonical_json`), `Proposal`, `Observation` and `Session`,
--   a dataclass each, where `check_proposal`, `check_observation` and `check_session` are
--   `__post_init__`; `Projection` and `Snapshot` are the dictionaries of envelopes and sessions.
--   `Policy` is src/zaynor/agents/policy.py over the registry (registry.py, contracts.py).
--   `Runner` is src/zaynor/agents/investigation_runner.py: `parse_proposal` and `execute`, with
--   `observe` for the part that builds the envelope; the handlers of the tools, json.loads and the
--   digest of a text are parameters. `Facts` has `AuthorizedFacts` and the investigator's
--   `from_sealed_result`. `Ledger`, `Steps`, `Authority`, `RoundTrip`, `Restored`, `Resumed`,
--   `Envelope`, `Turn` and `Bound` are proofs.
-- - A proposed response, src/zaynor/response_actions.py, is Response, with the evidence of a
--   sealed result's findings (src/zaynor/schemas.py); `Response.Evidence` has the proofs.
-- - The seal of an authoritative result, src/zaynor/authority_seal.py, is Seal: `Values` has
--   `_typed`, with its dictionaries as the data type `Typed`, `Sealing` has `canonical_bytes`,
--   `seal_authoritative_result` and `verify_authoritative_result`. `Rearranged` is about sorting,
--   `Same` says which values differ only in the order of items, `Faithful` about what a typed form
--   keeps, and `Binding` about what a seal binds.
-- - The guard of an agent's structured output, src/zaynor/agents/authority_guard.py, is Guard:
--   `Result` has the authoritative result of src/zaynor/schemas.py, as the value that the seal
--   covers, and what the guard reads from it, `Members` and `Sets` membership in its lists and sets, `Checks` has `check_structured_output`, and `Shown`
--   and `Presented` show what passes. str() of a value and str.upper() are arguments.
-- - The bounded parser of ELF images, tools/binary_static/elf.py, is Elf. A method of `_Elf` is a
--   function from the issues so far to its result and the issues after it, or to the error that
--   `struct` raises (`M`, in Elf/Image.antt, with `StructError`, `issue`, `in_bounds`, `unpack` and `cstring`). `Sections`, `Segments`, `Layout`,
--   `Dynamic`, `SymbolRows`, `Symbols`, `Notes`, `Texts` and `Versions` have the methods of these
--   names, the loop over a table row by row, and `Parse` has `parse` and `parse_elf`; `Measure` is
--   `_measure` with the budget of tools/binary_static/measure.py. `Gives` has a rule for what each
--   way to build a method gives, `Tables`, `Headers`, `Measured`, `Mapping`, `Listings`,
--   `Counting`, `Descriptors` and `Walking` use it for one method each, and `Whole` and `Accepts` for
--   `parse_elf`; `Bytes` has the numbers in an image by place value, `Fields` the layout of
--   the tables, with which `Reported` compares what is reported; `Names` is about `cstring` and `Rows` about the two ways to read symbols.
--
-- A sealed result is what the guard compares an agent's output with and what an investigator is
-- bound to; both ask the seal first. An audited call of a tool is a proposal (checked), a grant of
-- the policy, an observation (checked) and a record in the session; the session, the audit log and
-- the investigator's memory share no state.
--
-- What is a parameter. `Crypto` (Crypto.antt) stands for hashlib, hmac, json.dumps and the
-- encoding of texts, and `Codec` (Investigation/Contracts.antt) for those that the contracts use,
-- and `Platform` (Seal/Values.antt) for those of the seal, which may fail to encode a document or to
-- write an integer, with the names of a class's fields.
-- Toy.antt and the modules Examples instantiate them; the digest of measured bytes is an argument
-- of the ELF parser. `DumpsReadable` (AuditLog/Tamper.antt) says that the encoding of a body
-- determines its fields, `KeepsPayload` (Seal/Binding.antt) that the bytes of a payload do. The key that the environment resolves to is an argument, `env`.
--
-- Numbers and sizes. Sequence numbers and counters are Python's integers, modelled by natural
-- numbers since they start at zero and only grow. Limits are the code's: 16 MiB for an audit log,
-- 64 KiB for a canonical payload, 4096 characters for a text of a contract. The offsets and sizes
-- of an ELF image are unsigned fields, hence natural numbers, and sums of them do not wrap around
-- in Python. Every function is structurally recursive but the walk over notes, which gets one
-- round more than its container has bytes; each round moves on by at least twelve.
--
-- What is not modelled. A line of a log that is not of a log's shape; keys of a payload that are
-- no texts; values of another type than a field's annotation, where the code tests for it with
-- isinstance; a negative `max_steps`; times and the words of messages. In an ELF image, the words
-- for numbers of kinds and machines, the rendering of a name as UTF-8 or hexadecimal text (a name
-- is its bytes and whether they were cut), and the entropy of a histogram, which is a computation
-- with decimals. The remaining modules of src/zaynor (detection, correlation, custody, replay, the
-- guards of narratives, reports, servers), the other evidence importers in tools, and the engine
-- in vendor have no model here.
pub mod Prelude
pub mod Json
pub mod Crypto
pub mod Toy
pub mod AuditLog
pub mod InvestigationLog
pub mod Investigation
pub mod Response
pub mod Elf
pub mod Seal
pub mod Guard
