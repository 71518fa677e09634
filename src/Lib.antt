-- ===== src/Lib.antt =====
-- A verification library of Shuchuang: the firmware of a door controller (Src/Device), and the
-- transmit server (Src/TransmitServer) through which phones reach the devices.
--
-- The parts and how they meet. At the server, CDeviceManager registers the devices that ask for a
-- token and keeps which socket each one is connected on, CRegServer holds those sockets and gives each
-- message on them to a CRegMsgHandler, and CHTTPRequestHandler answers the phones or relays their
-- requests to a device through CRegServer. At the device, CRegProxy gets a token, registers with it
-- and passes the requests on. CRPCClient gives each request to the component that it names:
-- CUserManager (accounts, tokens, the openings a user has left), CTaskManager (the tasks of the week),
-- CDeviceController (the door), COpManager (the records of the openings), CSystemManager (the update
-- of the firmware). They keep their data in two SQLite tables, CUserRecord and COperationRecord, and in
-- a configuration file, CConfigManager. CNetworkManager sets the interface up.
--
-- Files.
--   Shared: tests, lists, signed integers, `std::map`, handlers with their ways to end, the interfaces
--     of the libraries.
--   Common/Config: Src/Common/ConfigManager.cpp; the file itself in Common/Config/Files.
--   Common/Log: Src/Common/PrintLog.cpp.
--   Device/UserTable: Src/Device/Util/UserRecord.cpp.
--   Device/OperationTable: Src/Device/Util/OperationRecord.cpp, and the data of the next two.
--   Device/Records: Src/Device/Component/Record/OperationManager.cpp.
--   Device/Door: Src/Device/Component/DeviceController.cpp.
--   Device/Users: Src/Device/Component/User/UserManager.cpp.
--   Device/TaskTable and Device/Tasks: Src/Device/Component/Task.
--   Device/Rpc: Src/Device/RPC/RPCClient.cpp, and RPCServer.cpp in Device/Rpc/Server.
--   Device/System: Src/Device/Component/System/SystemManager.cpp; resetConfig in Device/System/Reset.
--   Device/Network: Src/Device/Network.
--   Device/Main: Src/Device/Main.cpp; up to the tasks in Device/Boot, the clock in Device/System/Clock.
--   Device/World: the state of the device while it serves a request.
--   Device/Proxy: Src/Device/RegProxy/RegProxy.cpp.
--   Server/Devices: Src/TransmitServer/DeviceManager.cpp.
--   Server/PushCenter: Src/TransmitServer/PushCenter/PushCenter.cpp.
--   Server/Messages: Src/TransmitServer/RegServer/RegMsgHandler.cpp.
--   Server/Registrar: Src/TransmitServer/RegServer/RegServer.cpp; its start and its sockets in
--     Server/Registrar/Listening.
--   Server/Http: Src/TransmitServer/HTTPServer/HTTPRequestHandler.cpp and
--     Src/TransmitServer/UpdateManager/UpdateManager.cpp; HTTPServer.cpp in Server/Http/Serving.
--   Server/Main: Src/TransmitServer/Main.cpp.
--   Together: CRegProxy against CRegMsgHandler and CDeviceManager, CRegServer with CRegMsgHandler, and
--     a whole request of a phone through CHTTPRequestHandler, CRegServer and CRegMsgHandler (Phone).
--   Tests: runs on concrete data.
-- A method in camelCase is a function of the same words in snake_case, save where CUserManager and
-- CUserRecord share a name: `addUser`, `deleteUser`, `topUpUser` and `listUser` of CUserManager are
-- `add_account`, `delete_account`, `top_up` and `list_user`; `getRecords` of COpManager is
-- `list_records`. The branches of a long method are functions of their own, named for what they do.
--
-- How the code is read. A handler is a function from the state to an outcome and a state: it ends
-- well, or fails with the text of `detail`, or ends by an exception that nothing catches; what it
-- wrote before stays written. Each method holds its mutex, so a method is one step, save that
-- `run` of CDeviceManager holds none and is a step for each entry; the clock stands
-- still during a step. Logging is left out, save where it can throw, and but for Common/Log. Times
-- are microseconds. The integers of the program are signed integers without a bound: none of the
-- sums that are modelled leaves 64 bits on times of this era. CRegServer is a relation of steps:
-- what one of its threads does under its mutexes, in any order, with what the network brings as an
-- argument of the step. CRegProxy is a list of rounds, each with what its connections and its poll
-- give. All functions are total, without fuel, since the loops of the program run over lists; the
-- one of getFileMD5 has fuel, one piece more than the file has bytes.
--
-- What is a parameter. POCO's JSON objects are an interface `Json` of operations with the laws that
-- relate a `get` to a `set`; the generator of identifiers and MD5 are `Digest`; `Sqlite` says which
-- rows an INSERT refuses, and which of several matches a SELECT leaves behind. `Freed` is what
-- memory holds after `delete`, where CDeviceManager reads it. `reparse` prints and parses an object.
-- The handlers of CSystemManager, and the parser of JSON texts, are arguments of `run_task`. `Ftp`
-- is what an update reaches: the FTP server, the parsers of dates and of update information, and the
-- MD5 of a file; copying the files of an update is taken to succeed. `Surroundings` is what a
-- request of a phone reaches: the registry, the update directory and the relay of CRegServer.
-- `Syntax` prints and parses the packets of CRegProxy; `Exchange`, `Poll` and `Received` are what a
-- connection, a poll and a read of a socket give. `Library` is the object that POCO builds of a
-- pointer to another, and the text of a number. `Backup` says what the files hold that a reset
-- copies. The number of threads of a pool is a number, and a start beyond it throws, as POCO's does.
-- What becomes of a push, and what a configuration holds of the array "Proxy", are functions. A
-- start-up call returns, throws, waits for ever, or touches memory that is not there; `Surrounding`
-- says which sockets connect and which ports are bound. `Ntp` is what the time server answers, and
-- `Meeting` of Device/Main what stands at the paths of the databases.
--
-- What is not modelled: sockets and TLS themselves; what follows the semaphore in the main function of
-- the device, which nothing sets; the signal handler and its backtrace; the counts of the references to
-- an object, which only free memory.
pub mod Shared
pub mod Common
pub mod Device
pub mod Server
pub mod Together
pub mod Tests
