-- ===== src/Lib.antt =====
-- A model of programs that xen-api has in Python, and what holds of them.
--
-- The programs stand apart: each runs in dom0 on its own, and they meet the toolstack through files, sockets
-- and exit codes.
--
-- Nbd, of ocaml/vhd-tool/scripts/python_nbd_client.py: a client of the network block device protocol.
--   Nbd.Types is the constants, the exceptions and the client object (`Client`); Nbd.Socket is `_recvall`
--   over a stream that arrives in segments; Nbd.Options and Nbd.Handshake are the handshake phase;
--   Nbd.Replies and Nbd.Commands are the transmission phase and `close`. A method is a function of its
--   name from a client to a result and a client, so that what was written before an exception stays
--   written. What the server sends is the field `incoming`, fixed at the start; what the client sends is
--   `sent`. The TLS upgrade is the ssl module's and an argument. Timeouts are not modelled. The generator
--   of structured replies is run to its end at once, as `read` asks of its callers.
--   Nbd.Extents is ocaml/vhd-tool/scripts/get_nbd_extents.py, a client of this client: block status requests
--   over an area of an export. Its generator is run to its end; the command line is not modelled.
-- Qcow2, of python3/libexec/qcow2-to-stdout.py: a writer of qcow2 images without a file to seek in.
--   Qcow2.Bitmap and Qcow2.Interval are the helpers and the class `Interval`; Qcow2.Alloc and Qcow2.Layout
--   are the first half of `write_qcow2_content`, which chooses clusters and computes offsets; Qcow2.Write
--   is the second half, which writes. Files are their contents; `math.ceil` of a quotient is exact; numbers
--   are taken to fit the fields of the header. The command line and the JSON of the maps are not modelled.
-- Usb, of python3/libexec/usb_scan.py: which USB devices may be passed through to a guest.
--   Usb.Types is the devices and interfaces, Usb.Policy the policy file and its check, Usb.Scan the list
--   that is printed. A dict is a function from its keys, a set a list without duplicates; texts are lists
--   of code points, and letter case, digits and white space are those of ASCII. Logging and udev are not
--   modelled.
-- Manager, of python3/libexec/nbd_client_manager.py: connecting and disconnecting kernel NBD devices.
--   Manager.System is what the program uses of the host, a record of operations that Manager.Client takes
--   as a parameter. The file lock and the command line are not modelled.
-- Extauth, of python3/plugins/extauth-hook-AD.py: the configuration of PAM, SSH and NSS for Active Directory.
--   Extauth.KeyValue is the class `KeyValueConfig` on the lines of a file, Extauth.Subjects the lists of
--   users and groups, Extauth.Files the files on a host and Extauth.Hooks `ConfigManager` and the callbacks.
--   Xapi's session and the command that reloads sshd are arguments (`Outside`); a KeyError or another
--   exception of the session is `none`. The file system does not fail and file modes are not modelled.
-- XenApi, of python3/examples/XenAPI/XenAPI.py: the session of a client of xapi, which logs in again.
--   XenApi.Session has the requests, logins and logouts; what xapi answers is an operation of the record
--   `Xapi` over any world and any values. The transport and `API_version` are not modelled.
-- Rrdd, of ocaml/xcp-rrdd: the file through which a plugin in Python hands its data to the daemon in OCaml.
--   Rrdd.Types, Rrdd.Sources and Rrdd.Writer are `API.update` of scripts/rrdd/rrdd.py, Rrdd.Reader and
--   Rrdd.Parse are the reader of lib/transport/base/rrd_protocol_v2.ml and rrd_rpc.ml. Checksums, JSON, the
--   reading of floats and the cutting of texts are libraries and arguments (`Libraries`); a float is its 64 bits. The calls of the daemon are not modelled.
-- Igmp, of ocaml/xenopsd/scripts/igmp_query_injector.py: IGMP queries for interfaces that get connected.
--   Igmp.Injector is the loop over the events of xenstore; the events are a list, each with what is read at
--   its path. Packets, the thread and its timeout are not modelled.
-- Base is shared: numbers, lists, byte strings, big-endian fields, UTF-8, and the monad of code that
--   mutates an object and may raise. Tests has the theorems at concrete inputs.
--
-- Loops on fuel: `_recvall` has one round for each byte that is asked for; the loops over replies of a
-- server, and over the requests for extents, one round for each byte that is there, and one more (`rounds`), as a reply has a header; the
-- loop over refcount blocks one round for each cluster and one more; the wait for a device two rounds more
-- than its deadline has tenths of a second; the attempts to connect thirty. An end of the fuel is the
-- exception `diverged`, or `none`; the results below say when a loop gets there.
pub mod Base
pub mod Nbd
pub mod Qcow2
pub mod Usb
pub mod Manager
pub mod Extauth
pub mod XenApi
pub mod Rrdd
pub mod Igmp
pub mod Tests
