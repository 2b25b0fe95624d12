-- ===== src/Desktop/Tables.antt =====
-- The tables of src/ui/core/desktop_storage.c.
use project_orange_tea.Base.{ℕ, List, [], ◌∷◌, codes}

-- `struct desktop_task_seed`
pub record Seed : Type 0 where
  pub path : List ℕ
  pub content : List ℕ

-- `desktop_directories`
abbrev pub desktop_directories : List (List ℕ)
desktop_directories =
    codes "/C:"
    ∷ codes "/C:/System"
    ∷ codes "/C:/System/Config"
    ∷ codes "/C:/System/Logs"
    ∷ codes "/C:/System/Drivers"
    ∷ codes "/C:/Users"
    ∷ codes "/C:/Users/Guest"
    ∷ codes "/C:/Users/Guest/Desktop"
    ∷ codes "/C:/Users/Guest/Documents"
    ∷ codes "/C:/Users/Guest/Downloads"
    ∷ codes "/C:/Users/Guest/Pictures"
    ∷ codes "/C:/Users/Guest/AppData"
    ∷ codes "/C:/Users/admin"
    ∷ codes "/C:/Users/admin/Desktop"
    ∷ codes "/C:/Users/admin/Documents"
    ∷ codes "/C:/Users/admin/Downloads"
    ∷ codes "/C:/Program Files"
    ∷ codes "/C:/Program Files/ORTos"
    ∷ codes "/C:/Program Files/ORTos/Apps"
    ∷ codes "/C:/ProgramData"
    ∷ codes "/C:/ProgramData/ORTos"
    ∷ codes "/C:/ProgramData/ORTos/Menu"
    ∷ codes "/C:/ProgramData/ORTos/Taskbar"
    ∷ codes "/C:/ProgramData/ORTos/Settings"
    ∷ codes "/C:/Temp"
    ∷ codes "/C:/Recovery"
    ∷ codes "/C:/Logs"
    ∷ codes "/C:/Backups"
    ∷ []

-- `desktop_tasks`
abbrev pub desktop_tasks : List Seed
desktop_tasks =
    record {
      path = codes "/C:/ProgramData/ORTos/Menu/OExplorer.task";
      content = codes "name=OExplorer\ncommand=OExplorer\ncategory=System";
    }
    ∷ record {
      path = codes "/C:/ProgramData/ORTos/Menu/setting.task";
      content = codes "name=setting\ncommand=setting\ncategory=System";
    }
    ∷ record {
      path = codes "/C:/ProgramData/ORTos/Menu/browser.task";
      content = codes "name=browser\ncommand=browser\ncategory=Internet";
    }
    ∷ record {
      path = codes "/C:/ProgramData/ORTos/Menu/terminal.task";
      content = codes "name=Terminal\ncommand=terminal\ncategory=Utilities";
    }
    ∷ record {
      path = codes "/C:/ProgramData/ORTos/Taskbar/OExplorer.task";
      content = codes "name=OExplorer\ncommand=OExplorer";
    }
    ∷ record {
      path = codes "/C:/ProgramData/ORTos/Taskbar/setting.task";
      content = codes "name=setting\ncommand=setting";
    }
    ∷ record {
      path = codes "/C:/ProgramData/ORTos/Taskbar/browser.task";
      content = codes "name=browser\ncommand=browser";
    }
    ∷ record {
      path = codes "/C:/Users/Guest/Desktop/OExplorer.task";
      content = codes "name=OExplorer\ncommand=OExplorer";
    }
    ∷ record {
      path = codes "/C:/Users/Guest/Desktop/setting.task";
      content = codes "name=setting\ncommand=setting";
    }
    ∷ record {
      path = codes "/C:/Users/Guest/Desktop/browser.task";
      content = codes "name=browser\ncommand=browser";
    }
    ∷ []
