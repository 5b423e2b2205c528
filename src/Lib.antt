-- ===== src/Lib.antt =====
-- GravelBox runs a program under ptrace and decides on every system call that it makes: by the rules of
-- a configuration file, or by asking the user, who may also have to enter a password.
--
-- The parts, and how they meet:
-- * src/trace/tracer.cpp starts the child and handles the stops that `waitpid` reports. At the entry of
--   a system call it runs a callback, and cancels the call if the answer is no. Tracer.Types, Loop and
--   Run are `run_with_callbacks` in the parent, and Tracer.Child is the lambda that the child runs
--   before its new program. What the system answers is the input (`Launch`, `Event`, `ChildReplies`),
--   and the requests that change or resume a thread are written to a history, `log`. Tracer.System
--   gives the threads of the target as ptrace(2) describes them: where each is, and which stops it may
--   report; `Reach` is a run of the loop against any such threads. Tracer.Monitor is an abstract
--   reference monitor, for Tracer.Seen and Tracer.Refinement. Tracer.Entries has the rounds of a run of
--   the loop, with those in which the kernel lets a thread into a call, and Tracer.LetThrough is about
--   what was done in them. Tracer.Results is about the ends of calls, Tracer.Progress about stops that
--   are handled.
-- * src/trace/tracer.h has the callback: Tracer.Decide. It takes the text of the call from the parser,
--   the action from the configuration, and the rest from the user interface.
-- * src/parser makes the text of a call: Parser.Call is `Parser::operator()`, Parser.SyscallDef a
--   signature, Parser.ArgType and Parser.StrType the argument types, Parser.Load the constructor that
--   reads the definitions, with Parser.Given for what an element of the file says. Ostream is
--   `std::ostringstream` as far as the parser uses it: base, fill,
--   width. Parser.StrText, ArgText, RawText, CallText and CallSpec hold an independent description of
--   the text; Parser.Escape, Told, StringTold, Shown and SameCall are about what the text of a call
--   with a definition says of it, SameName about its name, RawInjective of a call without one,
--   TwoStrings about where it says too little, and Printable about its characters; Cut has the lemmas
--   on where one piece of text ends.
-- * src/config/file_config.h and file_config.cpp: Config.FileConfig, with the reading of hexadecimal
--   text in Config.Hex.
-- * src/ui/pinentry_conn.h, pinentry_conn.cpp and pinentry_ui.cpp: Ui.Pinentry is the dialogue, with
--   the two pipes as lists of lines; Ui.Launch the constructor and the destructor of `PinentryUI`, with
--   the descriptors of its pipes; Ui.PinentryChild the child that becomes pinentry. Ui.Interface is the
--   interface of src/type_traits.h, and pinentry as one. Ui.Reading has the replies of
--   pinentry's protocol, Ui.Dialogue a dialog as it goes by them; Ui.Replies and Ui.Lines are about the
--   lines of a dialogue, Ui.Descriptors about the pipes.
-- * src/main.cpp and src/modules.cpp put the parts together: Program.Options, Key, Run and Main. The
--   pointer to the user interface is a parameter, `UiOwner`, and Program.PinentryOwner is the one that
--   the program has; Program.Closing follows its pipes through a whole run, Program.Accepting the
--   dialogue about the key, and Program.ChildProcess the forked child from the options to the target.
--   src/sign.cpp, the tool that signs a configuration, is Program.Sign.
-- * src/utils.h and src/exceptions.h: Utils, Utils.Fd, Utils.Spawn, Base.Results and Exceptions. NatMap
--   is `std::unordered_map` with numbers as keys.
-- * Beside the program: src/ui/cli_ui.cpp is Ui.Cli; the stand-ins for debugging are Parser.Debug,
--   Parser.Interface, Config.Interface and Ui.Debug; the console lock of src/ui/pwd.cpp and test.cpp is
--   Ui.Pwd and Ui.PwdTest. Of the programs in src/targets, on which the tracer is tried,
--   Targets.MultiThreaded is multi-threaded.cpp and Targets.Print is print.c.
--
-- C++ in the model: a call gives `ok`, a `throw` with the exception, or `terminate` (a failed `assert`,
-- an exception that leaves a `noexcept` function). A member function is an `Exec`: it takes the state
-- and gives it back beside the outcome, so what was done before an exception stays done. Unsigned
-- integers are ℕ with their wrap-around written out.
--
-- Exec.Keeps has what an action keeps, and the rules for sequences, tests and handlers.
--
-- Threads in the model (Targets.MultiThreaded): `main` and each thread have a place in their code, a
-- step is one instruction that others can see, or an open, and an order is a list of who goes next. A
-- step that would have to wait is none.
--
-- Objects of `Utils::Fd` are destroyed where their scope is left, the last one first, also by an
-- exception (`after_scope`, `unwinding`).
--
-- Parameters: `process_vm_readv` (`ReadMemory`), JsonCpp (`Json`), `std::regex`, HMAC and the files,
-- with those that can be opened but not read to their end (`Libraries`, `read_error`), the user interface (`Ui`, `UiOwner`), what `close` answers (`CloseReply`), what boost
-- makes of a command line and the texts that libraries compose (`CommandLine`, `Texts`, `What`),
-- whether the signature file can be opened and written (`SignReplies`), and the value `unset` of a
-- variable that is read before it is written. A theorem that needs something of one of them says so.
--
-- Bounds and fuel: the trace loop ends where the list of `waitpid` results ends, and gives `none`. The
-- loops that ask for the password and for the signing key have as many turns as the interface can still
-- deliver passwords (`left`), and one more; each password takes input away (`ask_password_left`). The
-- loops of the console lock have as many turns as bytes are typed, and one more; each takes a byte. The
-- loop over `sendfile` ends where its answers end, and gives `none` if it would call it again.
--
-- Not modelled: what OpenSSL prints of an error of its own; `Utils::make_array`, which nothing calls;
-- writes to the pipe of pinentry that fail; an execve by a thread that is not the first of its program,
-- which ptrace(2) gives the id of the first (Tracer.System has no such step); a thread of
-- multi-threaded.cpp that cannot be started; src/targets/segfault.c and int80.S, which have no state
-- and no branches.
pub mod Base
pub mod Utils
pub mod NatMap
pub mod Exec
pub mod Ostream
pub mod Parser
pub mod Config
pub mod Ui
pub mod Tracer
pub mod Exceptions
pub mod Program
pub mod Targets
mod Tests
