-- ===== src/Tests/Runs.antt =====
-- Runs of the models.
use adnacom_hotplug.Common.{true, List, Outcome}
use adnacom_hotplug.Platform.{Effect}
use adnacom_hotplug.Machine.{Sys, start, any_device}
use adnacom_hotplug.Show.{main_options}
use adnacom_hotplug.Monitor.{main_start}
use adnacom_hotplug.Tests.World.{World, world}

abbrev plugged : World
plugged = record { link = true; hub = true; control = 0 }

first_run : Outcome (Unit {0}) × Sys World
first_run = main_start world main_options any_device (start plugged)

first_outcome : Outcome (Unit {0})
unfolding first_run
first_outcome = first_run.0

first_trace : List Effect
unfolding first_run
first_trace = first_run.1.trace
