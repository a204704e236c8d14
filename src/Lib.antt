-- ===== src/Lib.antt =====
-- Keekars-Pi-VPN: the web application, the root daemon behind its WireGuard part, and the agent that
-- reports the device's health.
--
-- The web application (app/wireguard.py) runs without privileges. It keeps tunnels and peers in
-- peers.json, and sends each privileged operation as one line of JSON over a Unix socket
-- (app/wg_helper_client.py) to the daemon (deploy/pi-wg-helperd/helper.py), which checks it, edits
-- /etc/wireguard/*.conf and runs `wg` and `systemctl`. Its other routers run `nmcli` and `systemctl`
-- themselves and talk to the kernel's routing tables. Every route but those of the sign-in asks for the
-- session's user first (app/auth.py, app/main.py). The agent (app/telemetry.py) is a process of its own;
-- it shares the readings of app/metrics.py with the application, and only reads the state file.
--
-- Files:
-- Base: names of the libraries, Boolean tests, lists, texts (lists of code points) with the string
--   methods that the source calls, dictionaries, and actions that may raise and change the state.
-- Ip: the parts of Python's `ipaddress` that the source calls. V4 and V6 read, print and compare
--   addresses; Any reads either version; Overlap, Print and Bounds hold their laws.
-- Helper: deploy/pi-wg-helperd/helper.py. Validate (the patterns and validators), Request (values
--   of JSON), Conf (_split_conf, _rebuild_conf, and in Conf.Info _parse_conf_info), Host (the files
--   and what is outside, _read_conf, _write_conf, _run), Blocks and Commands (the cmd_* functions),
--   Status (cmd_tunnel_status), Server (DISPATCH and handle_client). A file is stored as it is written,
--   and read with carriage returns as newlines (Reading), as Python's text files are.
-- WebApp: the state of the application: the daemon's files, and the metadata file, which is absent,
--   unreadable or holds tunnels. A request ends with a value or an HttpError; what it changed before
--   an exception stays changed.
-- HelperClient: app/wg_helper_client.py, over handle_client itself in place of the socket.
-- Wireguard: app/wireguard.py. Metadata, Subnets (the overlap check), Allocate (peer addresses),
--   Tunnels and Peers (the routes). A route is an action with the source's awaits in order.
--   One request runs at a time, except in Register, where a request goes on from a copy of the
--   metadata, and in Concurrent, where the routes that change something are tasks (Task), and any
--   task may go on after any step of another (Reached); asyncio switches at an await only, so its
--   orders are among these. Steps is on the metadata, Same on a task that runs alone. Agree
--   and AgreePeer are on the daemon's files and the metadata together.
-- Models: app/models.py, the patterns and bounds, over the records that the routers' modules have.
-- Network: app/network.py. Terse (_parse_nmcli_terse; TerseLaws has nmcli's own printing), Nmcli
--   (_run_nmcli, list_interfaces), Configure and Wifi (the routes), Profile (what nmcli documents of a
--   profile) and Refines, ScanLaws.
-- Routing: app/routing.py.
-- System: app/system.py.
-- Pages: app/auth.py, app/main.py and app/templating.py. Response, Auth (login, callback, logout,
--   current_user), Serve (the pages, the middleware, the handler of exceptions, and `serve`, which takes
--   a request through them; what comes to none of the routes is `outside`), Browser (a browser that follows redirects, and what the framework and the
--   sign-in library document), History (the sessions that a browser can come to), Redirects, SignedIn.
-- Metrics: app/metrics.py. NetRates, with Conserve on its rates, and Device (/sys and /proc).
-- Telemetry: app/telemetry.py. Names (_slug, _select_interfaces), Sensors (_components,
--   _discovery_payload), Collect, Agent (main and the callbacks, as events of two threads), Keys, Order.
-- Monitor: the heartbeat of app/monitor.py and the state file of app/metrics.py. A tick reads a
--   `Reading` (the time service's marker, the clock, the boot time, whether the file can be written);
--   a restart forgets the process's memory. Times are whole microseconds. Stats has the statistics and
--   the list of processes, Listing which processes it takes, and Top what the list holds.
--
-- Parameters: `Tools` stands for subprocesses, the kernel's interfaces and how far a write to the disk
-- comes; `Site` adds psutil's addresses, uuid4, the uids and whether peers.json can be written. They
-- are arbitrary functions, and no law of them is assumed save where a theorem says so. The other routers
-- have parameters of their own: `Device` (nmcli, psutil), `Netlink` (pyroute2, psutil), `Systemctl`,
-- `Sso` (authlib, the templates) and `Framework` (FastAPI), `Numbers` and `Floats` (Python's floats).
--
-- Bounds and fuel: addresses are natural numbers below 2 ^ 32 and 2 ^ 128, prefix lengths at most 32
-- and 128, as the readers check. The only fuel is the number of digits that `decimal` prints, one more
-- than the number itself. All loops are recursions on a list, a text or a count.
--
-- Not modelled: the encoding of JSON and UTF-8, logging, the modes of files, mkdir and chmod, keys of
-- peers.json besides "tunnels", entries of it that the application never writes (an IPv6 address, a
-- missing field), `isdigit` and `isalnum` beyond ASCII, failures of the disk other than
-- those of `Disk`, the opening of the socket, pydantic's reading of a request, the signing of the
-- session cookie, settings, templates, static files, the work of the MQTT client (its will, its queues,
-- its reconnecting), and `lower` beyond ASCII.
pub mod Base
pub mod Ip
pub mod Helper
pub mod WebApp
pub mod HelperClient
pub mod Wireguard
pub mod Network
pub mod Routing
pub mod System
pub mod Models
pub mod Pages
pub mod Metrics
pub mod Telemetry
pub mod Monitor
