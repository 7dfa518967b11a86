-- ===== src/Lib.antt =====
-- The O1 and M-Plane simulator in Python: base/src is the framework (configuration, templates of
-- YANG data, NETCONF, VES, fault and performance management), and o-ru-mplane/src and o-du-o1/src are
-- the two network functions that extend it.
--
-- The parts and how they interact. `Config` (base/src/core/config.py) reads the environment and, from
-- the DHCP offers that a sniffer sees, the addresses of the controller and of the event collector.
-- Templates (base/src/core/dict_factory.py) are nested dictionaries that the features change along
-- paths before they are written to the datastore. Fault management
-- (base/src/fault_management/alarm.py, fault_management.py) keeps the alarms, replays the steps of a
-- configuration in a thread that REST requests start and stop, and sends a notification for each.
-- `Ves` (base/src/core/ves.py) posts events to the collector, one at a time, with a sequence number;
-- the heartbeat, the alarms, the files of performance management and the registration of the
-- NETCONF connections are events.
--
-- Files:
--   Prelude: tests on numbers and texts, lists and dictionaries over the native numbers, results, and
--     methods that change a state and may raise (`Exec S A`: the state stays changed when an exception
--     leaves the method, as in Python).
--   Text, Text/Int: str(n), int(s), lower, join, the ASCII decoding of bytes.
--   Value: Python's dictionaries, lists and scalars as the program nests them, and keys and indices,
--     negative ones included.
--   DictFactory: update_key and delete_key of BaseTemplate. The source walks by reference; here the
--     changed object is put back along the path. DictFactory/Registry: add_template, get_template.
--   Config: Option43 is parse_option_43, Packets is handle_packet, print_dhcp_options and
--     dhcp_get_config, Reload is reload, get_envvar_bool and is_tls_enabled; Frames, Offers and
--     Collector describe what the options of an offer say.
--   Datetime: ensure_aware and the order of aware times of base/src/util/datetime.py, and
--     Datetime/Duration its seconds_to_duration.
--   Fault: Alarm is the class Alarm, where an attribute that was only annotated is `none`; Manager is
--     the dictionary of FaultManagement and what is sent; Receive is from_ietf_alarm_notif and
--     from_ietf_alarm; Control is load_active_alarms, load_alarms, start and stop; Task is
--     fault_management_task, one round of its loop at a time, and the whole feature as a step
--     relation: requests and rounds in any order. Rest is FaultManagementRest, Rest/Ends the ends of
--     URLs and Rest/Routes what the requests do. Replay is about what a step sends, Schedule and
--     Schedule/Course about the order of the steps, Change about the time of the last change, Counters
--     about raising and clearing, Threads about the threads; Rules and Kept carry properties of the
--     state through receiving an alarm.
--   Ves: the messages of base/src/core/ves.py and of the classes below VesMessage. Events has their
--     constructors, Update their `update`, Execute is Ves.execute; Numbers is about the sequence
--     numbers, Heartbeat about the message that base/src/feature/ves_heartbeat.py sends again.
--     Listing is get_listen_connections and Registration send_pnf_registrations_in_background of
--     base/src/feature/ves_pnfregistration.py.
--   Server: Layouts has the templates of base/src/core/netconf_server.py, Endpoints its
--     ssh_endpoint_config and tls_endpoint_config, Features the features of base/src/feature/
--     ietf_system.py, netconf_acm.py and ietf_keystore_truststore.py; Written is about what reaches
--     the datastore, and how the registration reads it.
--   Netconf: Netconf of base/src/core/netconf.py, on the list of the calls that it makes. Calls says
--     which calls set_data makes for a template; Files is get_datastore_files, Files/Order the order
--     of its names, Files/Ordered about its result. The modules above it keep, for each call of
--     set_data, its arguments.
--   Crypto: CryptoUtils of base/src/util/crypto.py; Pem has the texts of the keys and certificates and
--     the fingerprint, Pem/Lines is about the markers, Restart about the keys of a later start.
--   Performance: load_data and start of
--     base/src/performance_management/performance_management.py; Loaded is about what they leave. Task
--     is performance_management_task, one turn of its loop at a time; Index, Turn and Cycle are about
--     the reports that it writes.
--   Core: the loading of the files of /data in startup of base/src/core/core.py; Places is about the
--     datastores of the files, Loaded about the calls that reach sysrepo.
--   Expiration: start and the job of base/src/feature/certificate_expiration_notifier.py.
--   Hardware: check_ietf_hardware of base/src/core/ietf_hardware.py; Named is about the components,
--     Again about a second check.
--   Sleep: sa_sleep of base/src/util/threading.py.
--   Odu: the extension of o-du-o1/src/main.py. Handler is handle_callhome_session, cut where other
--     threads may run, and the methods it calls; Threads is accept_tls_connections and the handlers in
--     any order, as a step relation; Covered, Calls, Stretch and Listed are about the dictionary of
--     sessions and the aggregation, Collected about a collector that fails; Element is the 3GPP
--     template and load_3gpp_data, Response the texts of the answers. The events that it sends,
--     VesEventNotificationWrapper, stand with the others in Ves; Ves/Notification is about them.
--   Oru: the extension of o-ru-mplane/src/main.py. Templates has its templates, Allow the requests to
--     OpenDaylight, Address is update_remote_address and CallHome replace_callhome_settings and
--     startup; Allow/Round and Allow/Done are about the loop, Replaced about the settings.
--   Tests: runs at concrete data.
--
-- Bounds and fuel. `option_loop` has as many rounds as bytes: each round reads two bytes or more.
-- `digits` has one round more than the number, which has fewer digits. Numbers of Python are
-- unbounded; bytes are numbers below 256 by their source, which nothing here needs. The loop of
-- the registration is cut off after a number of rounds; Registration/Done says how many are enough, and
-- Oru/Allow/Done says it of the loop over the requests to OpenDaylight. A handler of a session is a
-- step at a time and needs no bound; any number of them may run, where the executor runs five.
--
-- Parameters. The environment, the package cryptography, the packets that scapy hands over, the
-- answers of the collector, the addresses of the container, what OpenDaylight, the O-RUs, libyang and
-- sysrepo answer, the readings of the clock, strftime, and the parser of dates of dateutil (a function
-- that may raise) are arguments; so is the text of a report, which regular expressions fill in. What
-- is sent to sysrepo is a list.
--
-- Not modelled: logging, threads of the sniffer, the HTTP and NETCONF servers and their libraries,
-- the printing of dates, YANG models and build files; of the parts with logic of their own, the text
-- of a report of performance management and the deletion of old reports, the rest of startup, and
-- the scheduler of the certificate's job. The delays between the steps of fault management, between
-- the turns of performance management and between the requests to OpenDaylight are taken to return.
-- The callback of the O-DU walks over the dictionary of sessions without the lock; here it sees one
-- state of it. What a failing apply_changes leaves staged in a session of sysrepo is left out.
pub mod Prelude
pub mod Text
pub mod Value
pub mod DictFactory
pub mod Config
pub mod Datetime
pub mod Fault
pub mod Ves
pub mod Sleep
pub mod Server
pub mod Performance
pub mod Netconf
pub mod Crypto
pub mod Hardware
pub mod Core
pub mod Expiration
pub mod Odu
pub mod Oru
pub mod Tests
