-- ===== src/Installer/Removal.antt =====
-- The removal of components in `execute_installation` of installer/src/installer.c: the two arrays of paths
-- and the loops over them.
use Prim.Native.String.{String}
use free_nt.Base.{Option, none, some, List, [], ◌∷◌, ◌++◌, map, codes, take}
use free_nt.Installer.{Text}
use free_nt.Installer.Script.{Action, run_command, cmd_room}

abbrev in_wnt : String → Text
in_wnt name = codes "C:\\WNT\\" ++ codes name

abbrev in_system32 : String → Text
in_system32 name = codes "C:\\WNT\\System32\\" ++ codes name

-- `to_remove_files`; the array has no NULL at its end.
unfoldable pub to_remove_files : List Text
to_remove_files =
    in_system32 "smss.exe"
    ∷ in_system32 "winlogon.exe"
    ∷ in_system32 "csrss.exe"
    ∷ in_system32 "services.exe"
    ∷ in_system32 "lsass.exe"
    ∷ in_system32 "wininit.exe"
    ∷ in_system32 "splwow64.exe"
    ∷ in_system32 "dwm.exe"
    ∷ in_system32 "dwmcore.dll"
    ∷ in_system32 "dwmrender.dll"
    ∷ in_system32 "dwmapi.dll"
    ∷ in_system32 "dwmcomppositing.dll"
    ∷ in_system32 "Win32k.sys"
    ∷ in_system32 "cdd.dll"
    ∷ in_system32 "kernel32.dll"
    ∷ in_system32 "user32.dll"
    ∷ in_system32 "gdi32.dll"
    ∷ in_system32 "winspool.drv"
    ∷ in_system32 "imm32.dll"
    ∷ in_system32 "shell32.dll"
    ∷ in_system32 "shlwapi.dll"
    ∷ in_system32 "uxtheme.dll"
    ∷ in_system32 "comdlg32.dll"
    ∷ in_system32 "comctl32.dll"
    ∷ in_system32 "shdocvw.dll"
    ∷ in_system32 "ole32.dll"
    ∷ in_system32 "oleaut32.dll"
    ∷ in_system32 "rpcrt4.dll"
    ∷ in_system32 "secur32.dll"
    ∷ in_system32 "wininet.dll"
    ∷ in_system32 "urlmon.dll"
    ∷ in_system32 "winhttp.dll"
    ∷ in_system32 "winmm.dll"
    ∷ in_system32 "winmmcfg.dll"
    ∷ in_system32 "powrprof.dll"
    ∷ in_wnt "explorer.exe"
    ∷ in_system32 "explorer.exe"
    ∷ in_wnt "Web\\Wallpaper\\Windows\\img1.jpg"
    ∷ in_wnt "Web\\Wallpaper\\Windows\\img2.jpg"
    ∷ in_wnt "Web\\Wallpaper\\Windows\\img3.jpg"
    ∷ in_wnt "Web\\Wallpaper\\Windows\\img4.jpg"
    ∷ in_wnt "Web\\Wallpaper\\Windows\\img5.jpg"
    ∷ in_wnt "Web\\Wallpaper\\Windows\\img6.jpg"
    ∷ in_wnt "Web\\Wallpaper\\Windows\\img7.jpg"
    ∷ in_wnt "Web\\Wallpaper\\Windows\\img8.jpg"
    ∷ in_wnt "Resources\\Themes\\aero.theme"
    ∷ in_wnt "Resources\\Themes\\basic.theme"
    ∷ in_wnt "Resources\\Themes\\highcontrast.theme"
    ∷ in_wnt "Resources\\Themes\\luna.theme"
    ∷ in_wnt "Fonts\\arial.ttf"
    ∷ in_wnt "Fonts\\ariali.ttf"
    ∷ in_wnt "Fonts\\arialbd.ttf"
    ∷ in_wnt "Fonts\\arialbi.ttf"
    ∷ in_wnt "Fonts\\cour.ttf"
    ∷ in_wnt "Fonts\\couri.ttf"
    ∷ in_wnt "Fonts\\courbd.ttf"
    ∷ in_wnt "Fonts\\courbi.ttf"
    ∷ in_wnt "Fonts\\times.ttf"
    ∷ in_wnt "Fonts\\timesi.ttf"
    ∷ in_wnt "Fonts\\timesbd.ttf"
    ∷ in_wnt "Fonts\\timesbi.ttf"
    ∷ in_system32 "spoolss.dll"
    ∷ in_system32 "spoolsv.exe"
    ∷ in_system32 "edgehtml.dll"
    ∷ in_system32 "Edge\\*"
    ∷ in_wnt "SystemApps\\MicrosoftEdge_*"
    ∷ in_system32 "onedrive.exe"
    ∷ in_system32 "OneDriveSetup.exe"
    ∷ in_system32 "mrt100.dll"
    ∷ in_system32 "korwbrkr.dll"
    ∷ in_wnt "Program Files\\Windows Defender\\*"
    ∷ in_wnt "ProgramData\\Microsoft\\Windows\\Start Menu\\Programs\\Windows Defender.lnk"
    ∷ in_wnt "Help\\*"
    ∷ in_wnt "Support\\*"
    ∷ in_system32 "1025\\*"
    ∷ in_system32 "1028\\*"
    ∷ in_system32 "1029\\*"
    ∷ in_system32 "1030\\*"
    ∷ in_system32 "1031\\*"
    ∷ in_system32 "1032\\*"
    ∷ in_system32 "1033\\*"
    ∷ in_system32 "1034\\*"
    ∷ in_system32 "1035\\*"
    ∷ in_system32 "1036\\*"
    ∷ in_system32 "1037\\*"
    ∷ in_system32 "1038\\*"
    ∷ in_system32 "1040\\*"
    ∷ in_system32 "1041\\*"
    ∷ in_system32 "1042\\*"
    ∷ in_system32 "1043\\*"
    ∷ in_system32 "1044\\*"
    ∷ in_system32 "1045\\*"
    ∷ in_system32 "1046\\*"
    ∷ in_system32 "1049\\*"
    ∷ in_system32 "1050\\*"
    ∷ in_system32 "1051\\*"
    ∷ in_system32 "1052\\*"
    ∷ in_system32 "1053\\*"
    ∷ in_system32 "1055\\*"
    ∷ in_system32 "1056\\*"
    ∷ in_system32 "1057\\*"
    ∷ in_system32 "1058\\*"
    ∷ in_system32 "1060\\*"
    ∷ in_system32 "1061\\*"
    ∷ in_system32 "1062\\*"
    ∷ in_system32 "1063\\*"
    ∷ in_system32 "1066\\*"
    ∷ in_system32 "1067\\*"
    ∷ in_system32 "1071\\*"
    ∷ in_system32 "1074\\*"
    ∷ in_system32 "1078\\*"
    ∷ in_system32 "1079\\*"
    ∷ in_system32 "11239\\*"
    ∷ in_system32 "2052\\*"
    ∷ in_system32 "2057\\*"
    ∷ in_system32 "2058\\*"
    ∷ in_system32 "2064\\*"
    ∷ in_system32 "2066\\*"
    ∷ in_system32 "2070\\*"
    ∷ in_system32 "2074\\*"
    ∷ in_system32 "2107\\*"
    ∷ in_system32 "2108\\*"
    ∷ in_system32 "2117\\*"
    ∷ in_system32 "2119\\*"
    ∷ in_system32 "2120\\*"
    ∷ in_system32 "2121\\*"
    ∷ in_system32 "2122\\*"
    ∷ in_system32 "2149\\*"
    ∷ in_system32 "3076\\*"
    ∷ in_system32 "3082\\*"
    ∷ in_system32 "3097\\*"
    ∷ in_system32 "3098\\*"
    ∷ in_system32 "3099\\*"
    ∷ in_system32 "3100\\*"
    ∷ in_system32 "3101\\*"
    ∷ in_system32 "3102\\*"
    ∷ in_system32 "3103\\*"
    ∷ in_system32 "3104\\*"
    ∷ in_system32 "3105\\*"
    ∷ in_system32 "3106\\*"
    ∷ in_system32 "3107\\*"
    ∷ in_system32 "3108\\*"
    ∷ in_system32 "3109\\*"
    ∷ in_system32 "3110\\*"
    ∷ in_system32 "32767\\*"
    ∷ []

-- `to_remove_dirs`, without the NULL at its end.
unfoldable pub to_remove_dirs : List Text
to_remove_dirs =
    in_system32 "AppLocker"
    ∷ in_system32 "AppReadiness"
    ∷ in_system32 "AppX"
    ∷ in_system32 "GroupPolicy"
    ∷ in_system32 "GroupPolicyUsers"
    ∷ in_system32 "NlsData"
    ∷ in_system32 "speech_xtk_resources_1"
    ∷ in_system32 "Speech"
    ∷ in_system32 "spool"
    ∷ in_system32 "WaaSMedic"
    ∷ in_system32 "WDI"
    ∷ in_system32 "WebTheme"
    ∷ in_system32 "winevt\\Logs"
    ∷ in_system32 "winevt\\ManifestCache"
    ∷ in_system32 "wseo"
    ∷ in_wnt "AppReadiness"
    ∷ in_wnt "AppModelUnlock"
    ∷ in_wnt "AssertInfo"
    ∷ in_wnt "Boot"
    ∷ in_wnt "Cursors"
    ∷ in_wnt "DigitalLocker"
    ∷ in_wnt "Documents and Settings"
    ∷ in_wnt "eHome"
    ∷ in_wnt "ELAMBKGO"
    ∷ in_wnt "Embedding"
    ∷ in_wnt "Fonts"
    ∷ in_wnt "Globalization"
    ∷ in_wnt "Help"
    ∷ in_wnt "IdentityCRL"
    ∷ in_wnt "ImmersiveControlPanel"
    ∷ in_wnt "InboxApps"
    ∷ in_wnt "Lyrics"
    ∷ in_wnt "Media"
    ∷ in_wnt "Memory"
    ∷ in_wnt "Microsoft"
    ∷ in_wnt "Microsoft.NET"
    ∷ in_wnt "OfflineCache"
    ∷ in_wnt "PerfLogs"
    ∷ in_wnt "Performance"
    ∷ in_wnt "PLA"
    ∷ in_wnt "PolicyCoverage"
    ∷ in_wnt "Prefetch"
    ∷ in_wnt "RemotePackages"
    ∷ in_wnt "Resources"
    ∷ in_wnt "SCHEMAPFX"
    ∷ in_wnt "ServiceProfiles"
    ∷ in_wnt "Setup"
    ∷ in_wnt "Share"
    ∷ in_wnt "software"
    ∷ in_wnt "Spinner"
    ∷ in_wnt "Speech"
    ∷ in_wnt "Spool"
    ∷ in_wnt "ssdfdata"
    ∷ in_wnt "system"
    ∷ in_system32 "AutoUpdate"
    ∷ in_system32 "LogFiles"
    ∷ in_system32 "LogPolicy"
    ∷ in_system32 "ManifestCache"
    ∷ in_system32 "mui"
    ∷ in_system32 "NlsData"
    ∷ in_system32 "Remotefile"
    ∷ in_system32 "restore"
    ∷ in_system32 "setup"
    ∷ in_system32 "Sysprep"
    ∷ in_system32 "tasks"
    ∷ in_system32 "Temp"
    ∷ in_system32 "winevt"
    ∷ in_system32 "WineShellExt"
    ∷ in_system32 "WinSxS"
    ∷ in_system32 "wt"
    ∷ in_system32 "WwanSvc"
    ∷ in_wnt "SystemResources"
    ∷ in_wnt "SysWOW64"
    ∷ in_wnt "Temp"
    ∷ in_wnt "WCM"
    ∷ in_wnt "WDI"
    ∷ in_wnt "WDT"
    ∷ in_wnt "Web"
    ∷ []

-- The loop over an array up to a NULL, `none` there; a read behind the array is a fault.
unfoldable pub until_null : List (Option Text) → Option (List Text)
until_null [] = none
until_null (none ∷ xs) = some []
until_null (some x ∷ xs) = elim (until_null xs) [ none ↦ none | some ys ↦ some (x ∷ ys) ]

unfoldable pub del_command : Text → Action
del_command path = run_command (take cmd_room (codes "del /f /q \"" ++ path ++ codes "\" 2>nul"))

unfoldable pub rmdir_command : Text → Action
rmdir_command path =
    run_command (take cmd_room (codes "rmdir /s /q \"" ++ path ++ codes "\" 2>nul"))

-- The two loops, over the arrays with and without NULL at the end.
unfoldable pub remove_components : Option (List Action)
unfolding until_null
remove_components = elim (until_null (map (λ x. some x) to_remove_files)) [
  | none ↦ none
  | some files ↦ elim (until_null (map (λ x. some x) to_remove_dirs ++ none ∷ [])) [
    | none ↦ none
    | some dirs ↦ some (map del_command files ++ map rmdir_command dirs)
  ]
]
