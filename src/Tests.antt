-- ===== src/Tests.antt =====
-- Tests: runs of the models on sample inputs.
mod Sample
mod Traces
mod Ends
mod Texts
mod Configs
mod Decisions
mod Loads
mod Dialogues
mod Programs
mod Descriptors
mod Mains
mod Refinements
mod Closings
mod Threads
mod Prints
mod Calls
mod Children
