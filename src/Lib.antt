-- ===== src/Lib.antt =====
-- The Secure Device Onboard client SDK: its message format, its protocol runs and its state machine.
--
-- The SDK takes a device through device initialisation (DI) with its manufacturer, then through
-- TO1 with a rendezvous server and TO2 with its owner. lib/sdo.c is the state machine on top: a
-- state function for each protocol, error recovery and shutdown. A state function makes a context
-- (lib/sdoprotctx.c), which connects to the server and exchanges messages: it calls the protocol
-- (lib/sdoprot.c), sends what the writer holds, and puts the response into the reader. The protocol
-- calls a handler for each message, from a table. Handlers read and write a JSON-like text with the
-- writer and the reader of lib/sdoblockio.c, over one kind of growing block; byte strings go through
-- base64 (crypto/openssl/openssl_base64.c).
--
-- Base has the shared names, lists and tests. Decimal is the printing of a uint32_t in base 10 and
-- the value of its digits. Env is a record of what comes from outside the sources (heap, printing and
-- comparison of the safe string library, base64 codec) with their documented behaviour as laws.
-- Block models sdo_block_t (sdoBPutC is sdo_b_put_c); Block/Bounds has its invariant.
-- Writer models sdow_t (sdo_writeUInt is sdo_write_uint), Writer/Arrays its byte arrays; Writer/Emit,
-- Writer/Strings and Writer/Numbers have what each operation appends to the text.
-- Reader models sdor_t, Reader/Fields its tags, arrays and byte fields; Reader/Scan, Reader/Values,
-- Reader/Strings, Reader/Tags and Reader/Arrays have what each takes from the text.
-- Wire puts the two together. Base64 models crypto/openssl/openssl_base64.c.
-- Prot models sdo_prot_t and the operations of lib/sdoprot.c; Prot/Machine the tables and the loop of
-- sdo_process_states, with the handlers as a function; Prot/Rounds, Prot/Errors and
-- Prot/Termination what the loop does.
-- Act has functions on a state that may fail, for C functions that go to their label err, with a rule
-- for each way to put them together: Act/Steps for what holds behind a success, Act/Keeps for what is
-- kept in any case. The handlers of lib/prot are such functions, or end in one.
-- Prot/Di models the handlers msg10 to msg13 of lib/prot/di, with a record of what they call outside
-- the modelled files; Prot/Di/Lawfulness, Prot/Di/Runs, Prot/Di/Outcome and Prot/Di/Accepted are about
-- them. Prot/Action has what the other handlers are made of. Prot/To1 models msg30 to msg33 of
-- lib/prot/to1, and Prot/To2 those of lib/prot/to2: Owner msg40 to msg43, Device msg44 to msg46, Info
-- msg47 to msg49, Finish msg50 and msg51. Below them (below Info for Device), Quiet is about the
-- reader, Device/Sending about msg44, Outcome about where the handlers go and what they have checked;
-- Owner/Entry and Owner/Chain are about the entries of a voucher, Info/Values about the owner's service
-- information, and Finish/Renewed about the credentials that msg50 makes. To1/Moves, To2/Moves and
-- Prot/Moves are about the order of the states, and Prot/Tables has the three tables.
-- Types models the bits and strings of lib/sdotypes.c, Types/ByteArray its byte arrays in messages,
-- Types/ServiceInfo its key-value list (strcasecmp_s is a parameter), and Types/Modules the service
-- information modules of include/sdomodules.h: the list and the dispatch (sdo_supply_modulePSI is
-- sdo_supply_module_psi), Psi, Osi and Dsi below it the three kinds of information. A module's callback
-- is a function on a world of any type, and strtok_s a parameter. Their children are about them.
-- Types/Rendezvous models the rendezvous entries and their list, with the reading of one entry as a
-- parameter; Types/Rendezvous/Printing has the text that is written for a list.
-- Types/Comparison models the comparisons of byte arrays, hashes and rendezvous lists, over memcmp_s.
-- Types/Reading models the reading of typed values, Types/Keys public keys, Types/Signature what is
-- signed and verified of a message, and Types/Packet encrypted packets.
-- Reader/Encoded is about the base64 fields of the reader.
-- Context models sdo_prot_ctx_t with sdo_prot_ctx_connect and sdo_connection_restablish (lib/sdonet.c);
-- Context/Run models sdo_prot_ctx_run; Context/Connected and Context/Finished are about them. The
-- network is a record of functions on a state of the outside world.
-- Rest models the REST context of network/rest_interface.c, in which the server of the next message
-- is noted, and Rest/Noted is about it. Net models resolve_dn and the three connect functions of
-- lib/sdonet.c over it; Net/Reached and Net/Resolved are about them. The sockets are a record of
-- functions, and the proxies a part of the state.
-- Sdk models app_data_t, sdo_sdk_get_status and sdo_sdk_resale of lib/sdo.c; Sdk/States the state
-- functions and the loop of sdo_sdk_run; Sdk/Selection is about the entry that TO1
-- tries, Sdk/Retries and its Loop about the runs of TO1, and Sdk/Outcomes about the others.
-- Tests has a concrete environment, and examples for all of it.
--
-- A C pointer is an option, an int that is never negative is a natural number, and uint32_t wraps
-- with % 2^32. A field that no modelled code reads is left out. Logging is left out.
-- Loops over a block take one more round of fuel than characters are left, so that they end at the end
-- of the text. sdo_process_states, sdo_prot_ctx_run and the loop of sdo_sdk_run take fuel from the
-- caller and give none when it runs out: C loops there as long as handlers and servers go on.
-- Prot/Termination is about the fuel that sdo_process_states needs, by a rank of its states.
--
-- sdo_psi_parsing takes fuel as well: one more than the entries of the text is enough. Where it would
-- write behind one of its buffers, its model ends with that. The buffer of the host name in Rest is
-- modelled with what is written behind it.
--
-- Not modelled: of lib/sdotypes.c the reading of a rendezvous entry, sdo_osi_parsing and the printing for
-- the log; the m-string, the vouchers and the credentials (lib/m-string.c, lib/sdocred.c,
-- lib/credentials_from_file.c), whose functions are parameters of the handlers; the set-up of the
-- proxies in lib/sdonet.c; the text of the REST header; the set-up of _STATE_DI and of app_initialize;
-- and the layers below: cryptography, storage, network and platform. A module list that the handlers of
-- TO2 pass on is an address, which a callback may change. The key exchange and the random numbers are
-- functions that stand for the calls in one run.
pub mod Base
pub mod Act
pub mod Decimal
pub mod Env
pub mod Base64
pub mod Block
pub mod Writer
pub mod Reader
pub mod Wire
pub mod Prot
pub mod Rest
pub mod Net
pub mod Context
pub mod Sdk
pub mod Types
mod Tests
