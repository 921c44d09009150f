-- ===== src/Lib.antt =====
-- The connector of the WolkAbout platform: services that a device's program calls, and that get the
-- platform's messages. Each service keeps its state, reads messages through a protocol, and answers
-- through the connectivity service; a command buffer of its own runs its callbacks later. The parts:
--
-- - wolk/service/file_management: FileTransferSession puts a file together from chunks, or follows a
--   download by a URL; FileManagementService keeps the sessions of the devices and their files.
--   FileManagement.Session has the class FileTransferSession, one function for each method.
--   FileManagement.Service has the service: Files its folder, Handlers messageReceived and the
--   handlers, Run onFileSessionStatus and the command buffer.
-- - wolk/service/data: DataService hands readings, attributes and parameters to the persistence and
--   publishes them (Data.Publish), asks the platform (Data.Requests), and gives its answers to who
--   waits for them (Data.Receive).
-- - wolk/service/firmware_update: FirmwareUpdateService asks an installer of the user's for
--   installations, and keeps a session file over a restart (Firmware).
-- - wolk/service/error: ErrorService keeps the errors of the devices for a while, and lets a caller
--   wait for one (Errors).
-- - wolk/service/registration_service: RegistrationService registers and removes devices, and asks
--   for the devices that the platform knows (Registration).
-- - wolk/service/firmware_update/debian: GenericDBusInterface, a connection to D-Bus with its
--   subscriptions (Dbus, and Dbus.Methods for the methods); SystemdServiceInterface (Debian.Systemd)
--   and APTPackageInstaller (Debian) over it; DebianPackageInstaller, which lets APT install a package
--   and waits for it (Debian.Installer); callers come one at a time. Debian.Service puts it under
--   FirmwareUpdateService.
-- - wolk/service/platform_status: PlatformStatusService hands the platform's status to a listener
--   (PlatformStatus).
-- - wolk/service/file_management/poco: HTTPFileDownloader gets the file of a URL in a thread
--   (Downloader, with the parts of a URL in Downloader.Url).
-- - wolk: WolkInterface, WolkSingle and WolkMulti are the objects that the user calls; they hold the
--   services, connect, and put what is asked of them into a command buffer. Wolk has the state and the
--   connection, Wolk.Single and Wolk.Multi the calls, Wolk.Reports what both report, Wolk.Multi.Managed
--   the devices, Wolk.Multi.Registrations their registration and errors, Wolk.Run the commands.
--   WolkBuilder makes such an object by the options that were set: Builder has the options,
--   Builder.Services the services, Builder.Build the three functions that build.
-- - application.cpp: the program ELab-Test, which reads its device from a document, publishes the
--   temperatures of the processor and the address of the computer, and takes the level of its log from
--   the platform (Application, and Application.Start for the start of main), with the readers of the
--   sensors and of the address (Readers, and Application.Turns for the loop over them).
-- - examples: the example programs. Examples.FullFeature has the one with a loop that the platform
--   slows down, as a state machine; Examples.Pull the one that connects for each exchange,
--   Examples.Senders those that send a value again and again, and Examples.Subdevices the one for
--   several devices. Random values are arguments.
--
-- A service is a record with the fields of the class, a method is a function on it with the method's
-- name. A `std::map` is an association list, with the order of its keys where the code walks through
-- it. The messages that go out, the commands that wait, and the calls of the user's objects are lists
-- in the state, in order. `Option` stands for a null pointer, for an empty result, and, where the
-- comment says so, for undefined behaviour: `none` is then a null session dereferenced, or an iterator
-- past its end read, or a mutex locked twice. Numbers are natural numbers; the counters of 64 bits wrap
-- at 2^64 where the code adds to them.
--
-- Sdk and the records named Surroundings hold what the code takes from elsewhere, as parameters: the
-- protocols and the messages' fields (the WolkAbout SDK is a submodule without files here), the file
-- system, the hashes, the persistence, the connection, the user's installer. What a theorem relies on
-- of them is a named hypothesis: IsStorage, IsFileSystem, KeepsReadings.
--
-- The recursion of publishReadingsForPersistenceKey is on fuel; more fuel than there are readings of
-- the key is enough, since every round takes a reading away. All other loops are structural.
--
-- Threads are not modelled but for the downloader's, which has three stages: a method runs as a whole,
-- under the locks that it takes, and what arrives while a caller waits is a list. In
-- FileManagement.Service.Reachable the messages, the commands of the buffer and the reports of the
-- downloader come in any order, each as a whole. Each service of a Wolk object lists its messages by
-- itself. Logging is left out, with the handlers that do nothing else. The tests are not modelled.
pub mod Prelude
pub mod Sdk
pub mod FileManagement
pub mod Data
pub mod Firmware
pub mod Errors
pub mod Application
pub mod Builder
pub mod Dbus
pub mod Debian
pub mod Downloader
pub mod Examples
pub mod PlatformStatus
pub mod Readers
pub mod Registration
pub mod Wolk
pub mod Tests
