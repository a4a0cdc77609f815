-- ===== src/Examples.antt =====
-- Runs of the program on concrete inputs, and each theorem at one of them.
mod TextForms
mod SmallDirectory
mod FileManager
mod FileCommands
mod TerminalRuns
mod Wire
mod Menus
mod Dialogs
mod ServerFiles
mod ServerSessions
mod Screens
mod TreeAndList
mod AppRuns
mod ServerTerminals
mod ServerInput
