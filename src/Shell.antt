-- ===== src/Shell.antt =====
-- What a command line is read with: the shell quoting of termite/misc.go and the options of
-- termite/getopt.go.
pub mod Command
pub mod Getopt
